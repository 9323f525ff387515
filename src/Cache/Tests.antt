-- ===== src/Cache/Tests.antt =====
-- The caches at concrete inputs: a source that gives prepared answers, in turn.
use nexgo.Base.{
  ℕ, suc, ◌*◌, ◌^◌, ◌≤◌, ◌≡◌, refl, pos, codes, true, false, none, some, List, [], ◌∷◌, length, map,
  All, ◌↔◌, Result, ok, err, is_some, wrap,
}
use nexgo.Cache.Config.{
  SyncableCacheConfig, ConfigError, invalid_name, RedisConfig, default_redis_config, effective,
  validate, second, validate_redis, merge_redis_defaults,
}
use nexgo.Cache.Sync.{
  SourceError, err_sync, Cache, is_retryable_error, retry_backoff, sync_with_retry, Syncable,
  new_syncable_cache, attempts,
}
use nexgo.Cache.Sync.Verdict.{answers, used, last_of, pauses_from, conclusion, sync_with_retry_lem}
use nexgo.Cache.Sync.Outcome.{Kept, sync-new_syncable_cache}
use nexgo.Cache.Sync.Lifecycle.{
  Event, start_called, first_synced, stop_called, done_seen, source_panicked, left, crashed,
  looping, is_member, run_calls, fresh, act,
}
use nexgo.Cache.Sync.Lifecycle.Contexts.{begun, Cancels}
use nexgo.Cache.Sync.Lifecycle.Stopped.{run_calls-Cancels}

abbrev refused_once : SourceError
refused_once = record { text = codes "dial: connection refused"; is_deadline_exceeded = false }

abbrev denied : SourceError
denied = record { text = codes "access denied"; is_deadline_exceeded = false }

abbrev prepared : List (Result SourceError ℕ) → List (Result SourceError ℕ) × Result SourceError ℕ
prepared [] = ([], err denied)
prepared (a ∷ rest) = (rest, a)

abbrev empty_cache : List (Result SourceError ℕ) → Cache (List (Result SourceError ℕ)) ℕ
empty_cache plan = record { world = plan; cache = 0; pauses = [] }

abbrev plan : List (Result SourceError ℕ)
plan = err refused_once ∷ err refused_once ∷ ok 7 ∷ ok 8 ∷ []

third_time :
    sync_with_retry prepared (pos 3) (empty_cache plan)
    ≡ (record { world = ok 8 ∷ []; cache = 7; pauses = pos second ∷ pos (2 * second) ∷ [] }, none)
unfolding sync_with_retry attempts is_retryable_error retry_backoff wrap
third_time = refl

given_up :
    (sync_with_retry prepared (pos 3) (empty_cache (err denied ∷ ok 1 ∷ []))).1
    ≡ some (err_sync (some denied))
unfolding sync_with_retry attempts is_retryable_error
given_up = refl

no_settings : new_syncable_cache none (some prepared) ≡ err (invalid_name [])
unfolding new_syncable_cache effective validate nexgo.Cache.Config.default_syncable_cache_config
no_settings = refl

abbrev unnumbered : SyncableCacheConfig
unnumbered = record {
  name = codes "users";
  sync_interval = pos 0;
  sync_timeout = pos 0;
  max_retries = pos 0;
}

abbrev users : Syncable (List (Result SourceError ℕ)) ℕ
users = record {
  config = record {
    name = codes "users";
    sync_interval = pos (300 * second);
    sync_timeout = pos (30 * second);
    max_retries = pos 3;
  };
  source = prepared;
}

made_users : new_syncable_cache (some unnumbered) (some prepared) ≡ ok users
unfolding new_syncable_cache effective validate nexgo.Cache.Config.default_syncable_cache_config
made_users = refl

sync_with_retry_example :
    (sync_with_retry prepared (pos 3) (empty_cache plan)
      ≡ conclusion
          (pauses_from 0 (length (used (answers prepared 3 plan))))
          (empty_cache plan)
          (last_of (prepared plan) (used (answers prepared 3 plan))))
    × (1 ≤ length (used (answers prepared 3 plan)))
    × (length (used (answers prepared 3 plan)) ≤ 3)
    × ((n : ℕ) → n ≤ 33 → retry_backoff n ≡ pos (2 ^ n * second))
sync_with_retry_example = sync_with_retry_lem prepared 2 (empty_cache plan)

sync-new_syncable_cache_example :
    (is_some (some unnumbered) ≡ true)
    × (users.source ≡ prepared)
    × ((k : ℕ) × (users.config.max_retries ≡ pos (suc k))
        × (1 ≤ length (used (answers users.source (suc k) plan))))
    × Kept
        (empty_cache plan)
        (sync_with_retry users.source users.config.max_retries (empty_cache plan))
sync-new_syncable_cache_example =
    sync-new_syncable_cache (some unnumbered) prepared users (empty_cache plan) made_users

-- Two calls of Start, Stop during the second one's first synchronisation, and a third call of Start.
abbrev calls : List Event
calls =
    start_called
    ∷ first_synced none
    ∷ start_called
    ∷ stop_called
    ∷ first_synced none
    ∷ done_seen 0
    ∷ done_seen 1
    ∷ start_called
    ∷ first_synced none
    ∷ stop_called
    ∷ source_panicked 2
    ∷ []

-- The first goroutine goes on, the second leaves, the third is ended by a panic only.
one_left :
    (run_calls calls fresh).loops
    ≡ record { context = 0; phase = looping }
      ∷ record { context = 1; phase = left }
      ∷ record { context = 2; phase = crashed }
      ∷ []
unfolding run_calls act
one_left = refl

run_calls-Cancels_example :
    let r = run_calls calls fresh in
    ((n : ℕ) → (is_member n r.cancelled ≡ true) ↔ Cancels n calls)
    × (map (λ l. l.context) r.loops ≡ begun 0 calls)
    × All (λ l. l.phase ≡ left → Cancels l.context calls) r.loops
run_calls-Cancels_example = run_calls-Cancels calls
