-- ===== src/Db/Postgres.antt =====
-- PostgresConfig of db/postgres_config.go: its defaults and checks, the escaping of a value and the
-- connection string.
pub mod Reading
pub mod RoundTrip
pub mod Meaning
use nexgo.Base.{
  ℕ, pos, Text, codes, Bool, true, false, not, ◌||◌, Option, none, some, List, [], ◌∷◌, ◌++◌,
  format_int, nat_beq, if◌then◌else◌,
}
use nexgo.Base.Texts.{or_text, or_int, fold_among, join}
use nexgo.Db.Settings.{
  BaseConfig, ConfigError, bad_ssl_mode, zero_base, merge_pool_defaults, validate_required,
  validate_log_level,
}
use nexgo.Db.Mysql.{first_error}

pub record PostgresConfig : Type 0 where
  pub base : BaseConfig
  pub ssl_mode : Text
  pub time_zone : Text
  pub search_path : Text
  pub application_name : Text

unfoldable pub default_postgres_config : PostgresConfig
unfolding merge_pool_defaults
default_postgres_config = record {
  base = merge_pool_defaults (record zero_base { port = pos 5432 });
  ssl_mode = codes "disable";
  time_zone = codes "UTC";
  search_path = codes "public";
  application_name = [];
}

unfoldable pub merge_defaults : PostgresConfig → PostgresConfig
unfolding merge_pool_defaults
merge_defaults c = record c {
  base = merge_pool_defaults (record c.base { port = or_int c.base.port (pos 5432) });
  ssl_mode = or_text c.ssl_mode (codes "disable");
  time_zone = or_text c.time_zone (codes "UTC");
  search_path = or_text c.search_path (codes "public");
}

abbrev pub valid_ssl_modes : List Text
valid_ssl_modes = codes "disable" ∷ codes "require" ∷ codes "verify-ca" ∷ codes "verify-full" ∷ []

unfoldable pub validate : PostgresConfig → Option ConfigError
unfolding validate_required validate_log_level
validate c = first_error (validate_required c.base) (
    first_error (validate_log_level c.base)
      (if fold_among c.ssl_mode valid_ssl_modes then none else some bad_ssl_mode))

-- A character of ` '\`
abbrev pub is_special : ℕ → Bool
is_special c = nat_beq c b' ' || (nat_beq c 39 || nat_beq c 92)

abbrev pub has_special : Text → Bool
has_special [] = false
has_special (c ∷ s) = is_special c || has_special s

-- The replacer: a backslash before a backslash and before a quote.
abbrev pub replace : Text → Text
replace [] = []
replace (c ∷ s) =
    let rest = replace s in
    if nat_beq c 92 then 92 ∷ 92 ∷ rest else if nat_beq c 39 then 92 ∷ 39 ∷ rest else c ∷ rest

unfoldable pub pg_escape : Text → Text
pg_escape [] = 39 ∷ 39 ∷ []
pg_escape (c ∷ s) = if not (has_special (c ∷ s)) then c ∷ s else 39 ∷ (replace (c ∷ s) ++ (39 ∷ []))

abbrev pub pair : Text → Text → Text
pair key value = key ++ (b'=' ∷ value)

abbrev pub application_part : Text → List Text
application_part [] = []
application_part (c ∷ s) = pair (codes "application_name") (pg_escape (c ∷ s)) ∷ []

abbrev pub parts : PostgresConfig → List Text
parts c =
    pair (codes "host") (pg_escape c.base.host)
    ∷ pair (codes "port") (format_int c.base.port)
    ∷ pair (codes "user") (pg_escape c.base.user)
    ∷ pair (codes "password") (pg_escape c.base.password)
    ∷ pair (codes "dbname") (pg_escape c.base.database)
    ∷ pair (codes "sslmode") (pg_escape c.ssl_mode)
    ∷ pair (codes "TimeZone") (pg_escape c.time_zone)
    ∷ pair (codes "search_path") (pg_escape c.search_path)
    ∷ application_part c.application_name

unfoldable pub dsn : PostgresConfig → Text
unfolding pg_escape
dsn c = join (b' ' ∷ []) (parts c)
