-- ===== src/Db/Settings.antt =====
-- BaseConfig of db/base_config.go: its defaults and its checks.
use nexgo.Base.{
  ℕ, ◌*◌, ℤ, pos, Text, codes, text_eq, to_lower, Option, none, some, List, [], ◌∷◌, not_positive,
  if◌then◌else◌,
}
use nexgo.Base.Texts.{is_empty_text, or_text, or_int, fold_among}

pub record BaseConfig : Type 0 where
  pub host : Text
  pub port : ℤ
  pub user : Text
  pub password : Text
  pub database : Text
  pub max_open_conns : ℤ
  pub max_idle_conns : ℤ
  pub conn_max_lifetime : ℤ
  pub conn_max_idle_time : ℤ
  pub log_level : Text
  pub slow_threshold : ℤ

-- A time.Duration counts nanoseconds.
abbrev pub seconds : ℕ → ℤ
seconds n = pos (n * 1000000000)

-- A BaseConfig whose fields have their zero values.
abbrev pub zero_base : BaseConfig
zero_base = record {
  host = [];
  port = pos 0;
  user = [];
  password = [];
  database = [];
  max_open_conns = pos 0;
  max_idle_conns = pos 0;
  conn_max_lifetime = pos 0;
  conn_max_idle_time = pos 0;
  log_level = [];
  slow_threshold = pos 0;
}

unfoldable pub base_pool_defaults : BaseConfig
base_pool_defaults = record zero_base {
  max_open_conns = pos 25;
  max_idle_conns = pos 10;
  conn_max_lifetime = seconds 1800;
  conn_max_idle_time = seconds 600;
  log_level = codes "warn";
  slow_threshold = seconds 1;
}

unfoldable pub merge_pool_defaults : BaseConfig → BaseConfig
unfolding base_pool_defaults
merge_pool_defaults b = record b {
  max_open_conns = or_int b.max_open_conns base_pool_defaults.max_open_conns;
  max_idle_conns = or_int b.max_idle_conns base_pool_defaults.max_idle_conns;
  conn_max_lifetime = or_int b.conn_max_lifetime base_pool_defaults.conn_max_lifetime;
  conn_max_idle_time = or_int b.conn_max_idle_time base_pool_defaults.conn_max_idle_time;
  log_level = or_text b.log_level base_pool_defaults.log_level;
  slow_threshold = or_int b.slow_threshold base_pool_defaults.slow_threshold;
}

-- ErrInvalidConfig, by its message.
pub data ConfigError : Type 0 where
  host_required port_required user_required password_required database_required : ConfigError
  bad_log_level bad_ssl_mode : ConfigError

unfoldable pub validate_required : BaseConfig → Option ConfigError
validate_required b =
    if is_empty_text b.host
    then some host_required
    else if not_positive b.port
    then some port_required
    else if is_empty_text b.user
    then some user_required
    else if is_empty_text b.password
    then some password_required
    else if is_empty_text b.database
    then some database_required
    else none

abbrev pub valid_log_levels : List Text
valid_log_levels = codes "silent" ∷ codes "error" ∷ codes "warn" ∷ codes "info" ∷ []

unfoldable pub validate_log_level : BaseConfig → Option ConfigError
validate_log_level b = if fold_among b.log_level valid_log_levels then none else some bad_log_level

-- The levels of gorm.io/gorm/logger.
pub data LogLevel : Type 0 where
  silent error warn info : LogLevel

unfoldable pub gorm_log_level : BaseConfig → LogLevel
gorm_log_level b =
    let level = to_lower b.log_level in
    if text_eq level (codes "silent")
    then silent
    else if text_eq level (codes "error")
    then error
    else if text_eq level (codes "warn")
    then warn
    else if text_eq level (codes "info")
    then info
    else warn
