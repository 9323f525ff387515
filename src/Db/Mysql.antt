-- ===== src/Db/Mysql.antt =====
-- Config of db/config.go: the MySQL settings, their defaults and checks, and the connection string.
pub mod Slashes
use nexgo.Base.{pos, Text, codes, Option, none, some, List, [], ◌∷◌, ◌++◌, format_int}
use nexgo.Base.Texts.{or_text, or_int}
use nexgo.Db.Settings.{
  BaseConfig, ConfigError, merge_pool_defaults, zero_base, validate_required, validate_log_level,
}

pub record Config : Type 0 where
  pub base : BaseConfig
  pub charset : Text
  pub loc : Text

abbrev pub first_error : Option ConfigError → Option ConfigError → Option ConfigError
first_error none other = other
first_error (some e) other = some e

unfoldable pub default_config : Config
unfolding merge_pool_defaults
default_config = record {
  base = merge_pool_defaults (record zero_base { port = pos 3306 });
  charset = codes "utf8mb4";
  loc = codes "Local";
}

unfoldable pub merge_defaults : Config → Config
unfolding merge_pool_defaults
merge_defaults c = record {
  base = merge_pool_defaults (record c.base { port = or_int c.base.port (pos 3306) });
  charset = or_text c.charset (codes "utf8mb4");
  loc = or_text c.loc (codes "Local");
}

unfoldable pub validate : Config → Option ConfigError
unfolding validate_required validate_log_level
validate c = first_error (validate_required c.base) (validate_log_level c.base)

-- The parts of `%s:%s@tcp(%s:%d)/%s?charset=%s&parseTime=True&loc=%s` before the slash and behind it.
abbrev pub address : Config → Text
address c =
    c.base.user
    ++ (b':' ∷ c.base.password
        ++ (codes "@tcp(" ++ (c.base.host ++ (b':' ∷ format_int c.base.port ++ codes ")"))))

abbrev pub schema : Config → Text
schema c =
    c.base.database ++ (codes "?charset=" ++ (c.charset ++ (codes "&parseTime=True&loc=" ++ c.loc)))

unfoldable pub dsn : Config → Text
dsn c = address c ++ (b'/' ∷ schema c)
