-- ===== src/Cache/Config.antt =====
-- The settings of cache/config.go: SyncableCacheConfig and RedisConfig, their defaults and checks.
pub mod Merged
use nexgo.Base.{
  ℕ, ◌*◌, ℤ, pos, Text, codes, Bool, ◌||◌, Option, none, some, [], not_positive, is_negative,
  if◌then◌else◌,
}
use nexgo.Base.Texts.{is_empty_text, or_text, or_int}

pub record SyncableCacheConfig : Type 0 where
  pub name : Text
  pub sync_interval : ℤ
  pub sync_timeout : ℤ
  pub max_retries : ℤ

-- A time.Duration counts nanoseconds.
abbrev pub second : ℕ
second = 1000000000

unfoldable pub default_syncable_cache_config : SyncableCacheConfig
default_syncable_cache_config = record {
  name = [];
  sync_interval = pos (300 * second);
  sync_timeout = pos (30 * second);
  max_retries = pos 3;
}

-- The errors of cache/errors.go on settings.
pub data ConfigError : Type 0 where
  invalid_config : ConfigError
  invalid_name : Text → ConfigError
  invalid_sync_interval invalid_sync_timeout invalid_max_retries : ℤ → ConfigError
  addr_required negative_number negative_timeout : ConfigError

unfoldable pub validate : SyncableCacheConfig → Option ConfigError
validate c =
    if is_empty_text c.name
    then some (invalid_name c.name)
    else if not_positive c.sync_interval
    then some (invalid_sync_interval c.sync_interval)
    else if not_positive c.sync_timeout
    then some (invalid_sync_timeout c.sync_timeout)
    else if not_positive c.max_retries
    then some (invalid_max_retries c.max_retries)
    else none

-- The settings that NewSyncableCache checks: the default ones for a nil pointer, else those given with
-- the defaults for zero values.
unfoldable pub effective : Option SyncableCacheConfig → SyncableCacheConfig
unfolding default_syncable_cache_config
effective none = default_syncable_cache_config
effective (some c) = record c {
  sync_interval = or_int c.sync_interval default_syncable_cache_config.sync_interval;
  sync_timeout = or_int c.sync_timeout default_syncable_cache_config.sync_timeout;
  max_retries = or_int c.max_retries default_syncable_cache_config.max_retries;
}

pub record RedisConfig : Type 0 where
  pub addr : Text
  pub username : Text
  pub password : Text
  pub db : ℤ
  pub pool_size : ℤ
  pub min_idle_conns : ℤ
  pub max_retries : ℤ
  pub dial_timeout : ℤ
  pub read_timeout : ℤ
  pub write_timeout : ℤ
  pub conn_max_idle_time : ℤ
  pub conn_max_lifetime : ℤ

unfoldable pub default_redis_config : RedisConfig
default_redis_config = record {
  addr = codes "localhost:6379";
  username = [];
  password = [];
  db = pos 0;
  pool_size = pos 10;
  min_idle_conns = pos 5;
  max_retries = pos 3;
  dial_timeout = pos (5 * second);
  read_timeout = pos (3 * second);
  write_timeout = pos (3 * second);
  conn_max_idle_time = pos (300 * second);
  conn_max_lifetime = pos 0;
}

unfoldable pub validate_redis : RedisConfig → Option ConfigError
validate_redis c =
    if is_empty_text c.addr
    then some addr_required
    else if is_negative c.db
        || (is_negative c.pool_size || (is_negative c.min_idle_conns || is_negative c.max_retries))
    then some negative_number
    else if is_negative c.dial_timeout
        || (is_negative c.read_timeout || is_negative c.write_timeout)
    then some negative_timeout
    else none

unfoldable pub merge_redis_defaults : RedisConfig → RedisConfig
unfolding default_redis_config
merge_redis_defaults c = record c {
  addr = or_text c.addr default_redis_config.addr;
  pool_size = or_int c.pool_size default_redis_config.pool_size;
  min_idle_conns = or_int c.min_idle_conns default_redis_config.min_idle_conns;
  max_retries = or_int c.max_retries default_redis_config.max_retries;
  dial_timeout = or_int c.dial_timeout default_redis_config.dial_timeout;
  read_timeout = or_int c.read_timeout default_redis_config.read_timeout;
  write_timeout = or_int c.write_timeout default_redis_config.write_timeout;
  conn_max_idle_time = or_int c.conn_max_idle_time default_redis_config.conn_max_idle_time;
}
