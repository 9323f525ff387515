-- ===== src/Db/Tests.antt =====
-- The settings and connection strings of package db at concrete inputs.
use nexgo.Base.{
  ◌≡◌, refl, pos, negsuc, Text, codes, Bool, true, false, not, ◌&&◌, Option, none, some, List, [],
  ◌∷◌, arith, is_negative,
}
use nexgo.Db.Settings.{
  BaseConfig, LogLevel, gorm_log_level, merge_pool_defaults, base_pool_defaults, validate_required,
  validate_log_level,
}
use nexgo.Db.Mysql.{Config}
use nexgo.Db.Mysql
use nexgo.Db.Settings
use nexgo.Db.Mysql.Slashes.{behind_last_slash, behind-dsn}
use nexgo.Db.Postgres.{PostgresConfig, default_postgres_config}
use nexgo.Db.Postgres
use nexgo.Db.Postgres.Reading.{read_settings}
use nexgo.Db.Postgres.Meaning.{IsClean, settings_of, read_settings-dsn}

abbrev small : BaseConfig
small = record {
  host = codes "db";
  port = pos 0;
  user = codes "app";
  password = codes "it's \\ a";
  database = codes "main";
  max_open_conns = pos 0;
  max_idle_conns = pos 0;
  conn_max_lifetime = pos 0;
  conn_max_idle_time = pos 0;
  log_level = codes "INFO";
  slow_threshold = pos 0;
}

abbrev in_shanghai : Config
in_shanghai = record { base = small; charset = codes "utf8mb4"; loc = codes "Asia/Shanghai" }

abbrev in_quotes : PostgresConfig
in_quotes = record {
  base = record small { port = pos 5432 };
  ssl_mode = codes "disable";
  time_zone = codes "UTC";
  search_path = codes "public";
  application_name = codes "a b=c";
}

dsn-in_quotes :
    Postgres.dsn in_quotes
    ≡ codes
        "host=db port=5432 user=app password='it\\'s \\\\ a' dbname=main sslmode=disable TimeZone=UTC search_path=public application_name='a b=c'"
unfolding Postgres.dsn Postgres.pg_escape nexgo.Base.format_int
dsn-in_quotes = refl

level_info : gorm_log_level small ≡ LogLevel.info
unfolding gorm_log_level
level_info = refl

unmerged : Mysql.validate in_shanghai ≡ some Settings.port_required
unfolding Mysql.validate validate_required validate_log_level
unmerged = refl

-- The location Asia/Shanghai is cut in two.
behind-dsn_example : behind_last_slash (Mysql.dsn in_shanghai) ≡ some (codes "Shanghai")
behind-dsn_example = (behind-dsn in_shanghai).1 (codes "Shanghai") refl

in_quotes-IsClean : IsClean in_quotes
in_quotes-IsClean = record {
  host = refl;
  user = refl;
  password = refl;
  database = refl;
  ssl_mode = refl;
  time_zone = refl;
  search_path = refl;
  application_name = refl;
}

read_settings-dsn_example : read_settings 10 (Postgres.dsn in_quotes) ≡ some (settings_of in_quotes)
read_settings-dsn_example = read_settings-dsn in_quotes 10 in_quotes-IsClean (omega arith)
