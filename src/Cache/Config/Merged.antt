-- ===== src/Cache/Config/Merged.antt =====
-- Which settings of cache/config.go pass their checks once the defaults are merged in.
use nexgo.Base.{◌≡◌, refl, Bool, true, false, not, ◌&&◌, Option, none, some, is_negative, arith}
use nexgo.Base.Texts.{
  is_empty_text, or_int_twice, or_text_twice, not_positive-or_int, is_negative-or_int,
  is_empty-or_text,
}
use nexgo.Cache.Config.{
  SyncableCacheConfig, ConfigError, validate, effective, default_syncable_cache_config, RedisConfig,
  validate_redis, merge_redis_defaults, default_redis_config,
}

abbrev pub passes : Option ConfigError → Bool
passes none = true
passes (some e) = false

-- No settings at all are not usable, since the default ones have no name.
abbrev pub is_usable : Option SyncableCacheConfig → Bool
is_usable none = false
is_usable (some c) =
    not (is_empty_text c.name)
    && (not (is_negative c.sync_interval)
        && (not (is_negative c.sync_timeout) && not (is_negative c.max_retries)))

abbrev pub has_no_negative : RedisConfig → Bool
has_no_negative c =
    not (is_negative c.db)
    && (not (is_negative c.pool_size)
        && (not (is_negative c.min_idle_conns)
            && (not (is_negative c.max_retries)
                && (not (is_negative c.dial_timeout)
                    && (not (is_negative c.read_timeout) && not (is_negative c.write_timeout))))))

syncable_passes :
    (config : Option SyncableCacheConfig) → passes (validate (effective config)) ≡ is_usable config
unfolding validate effective default_syncable_cache_config
syncable_passes none = refl
syncable_passes (some c) =
    rw
      (
        not_positive-or_int c.sync_interval default_syncable_cache_config.sync_interval refl,
        not_positive-or_int c.sync_timeout default_syncable_cache_config.sync_timeout refl,
        not_positive-or_int c.max_retries default_syncable_cache_config.max_retries refl,
      )
      (ground arith)

redis_passes :
    (c : RedisConfig) → passes (validate_redis (merge_redis_defaults c)) ≡ has_no_negative c
unfolding validate_redis merge_redis_defaults default_redis_config
redis_passes c =
    rw
      (
        is_empty-or_text c.addr default_redis_config.addr refl,
        is_negative-or_int c.pool_size default_redis_config.pool_size refl,
        is_negative-or_int c.min_idle_conns default_redis_config.min_idle_conns refl,
        is_negative-or_int c.max_retries default_redis_config.max_retries refl,
        is_negative-or_int c.dial_timeout default_redis_config.dial_timeout refl,
        is_negative-or_int c.read_timeout default_redis_config.read_timeout refl,
        is_negative-or_int c.write_timeout default_redis_config.write_timeout refl,
      )
      (ground arith)

-- Settings of a syncable cache pass the checks of NewSyncableCache exactly if some are given, with a
-- name, and no number is negative. Settings of Redis pass theirs after the merge exactly if no number
-- that is checked is negative, and to merge twice is to merge once.
validate-effective :
    (config : Option SyncableCacheConfig) (redis : RedisConfig)
    → (passes (validate (effective config)) ≡ is_usable config)
      × (passes (validate_redis (merge_redis_defaults redis)) ≡ has_no_negative redis)
      × (merge_redis_defaults (merge_redis_defaults redis) ≡ merge_redis_defaults redis)
unfolding merge_redis_defaults
validate-effective config redis = (
  syncable_passes config,
  redis_passes redis,
  unfold default_redis_config in simp (or_int_twice, or_text_twice),
)
