-- ===== src/Cache/Sync.antt =====
-- One synchronisation of the cache of cache/syncable_cache.go: the source is asked up to so many times,
-- with a growing pause before each retry. The source is a parameter: it takes the world, the context
-- with its deadline included, to the world after the call and its answer.
pub mod Verdict
pub mod Outcome
pub mod Lifecycle
use nexgo.Base.{
  ℕ, zero, suc, ◌*◌, ◌^◌, ℤ, pos, negsuc, Text, codes, Bool, true, false, ◌||◌, Option, none, some,
  List, [], ◌∷◌, ◌++◌, wrap, contains, Result, ok, err, if◌then◌else◌,
}
use nexgo.Cache.Config.{
  SyncableCacheConfig, ConfigError, invalid_config, validate, effective, second,
}

-- An error of the source: its text, and whether context.DeadlineExceeded is among what it wraps.
pub record SourceError : Type 0 where
  pub text : Text
  pub is_deadline_exceeded : Bool

abbrev pub retryable_errors : List Text
retryable_errors =
    codes "connection refused"
    ∷ codes "connection reset"
    ∷ codes "broken pipe"
    ∷ codes "timeout"
    ∷ codes "too many connections"
    ∷ codes "temporary failure"
    ∷ codes "network is unreachable"
    ∷ []

abbrev pub contains_one : Text → List Text → Bool
contains_one s [] = false
contains_one s (t ∷ ts) = contains s t || contains_one s ts

unfoldable pub is_retryable_error : SourceError → Bool
is_retryable_error e = e.is_deadline_exceeded || contains_one e.text retryable_errors

-- ErrSync, around no error if none was made; Start puts it around that of its first synchronisation.
pub data SyncError : Type 0 where
  err_sync : Option SourceError → SyncError
  err_sync_again : SyncError → SyncError

-- The pause before attempt `suc n`, in nanoseconds: the 64 bits of a time.Duration. From attempt 64 on
-- the sources convert a floating-point number that no int64 holds; the pause is then none at all.
unfoldable pub retry_backoff : ℕ → ℤ
unfolding wrap
retry_backoff n = wrap 63 (2 ^ n * second)

pub record Cache {ℓ κ} (W : Type ℓ) (A : Type κ) : Type (ℓ ⊔ κ) where
  pub world : W
  pub cache : A
  pub pauses : List ℤ

-- How often a loop from 0 to a limit runs.
abbrev pub attempt_count : ℤ → ℕ
attempt_count (pos n) = n
attempt_count (negsuc n) = 0

module _ {ℓ κ} {W : Type ℓ} {A : Type κ} where
  abbrev pub wait_before : ℕ → Cache W A → Cache W A
  wait_before zero c = c
  wait_before (suc n) c = record c { pauses = c.pauses ++ (retry_backoff n ∷ []) }

  -- What follows an answer, given what the attempts that are left do.
  abbrev pub after_answer :
      (Option SourceError → Cache W A → Cache W A × Option SyncError)
      → Cache W A
      → W × Result SourceError A
      → Cache W A × Option SyncError
  after_answer more c (w, ok value) = (record c { world = w; cache = value }, none)
  after_answer more c (w, err e) =
      let again = more (some e) (record c { world = w }) in
      if is_retryable_error e then again else (record c { world = w }, some (err_sync (some e)))

  -- The attempts that are left, the number of those made, and the last error.
  unfoldable pub attempts :
      (W → W × Result SourceError A)
      → ℕ
      → ℕ
      → Option SourceError
      → Cache W A
      → Cache W A × Option SyncError
  unfolding is_retryable_error retry_backoff
  attempts source zero n last c = (c, some (err_sync last))
  attempts source (suc left) n last c =
      after_answer (attempts source left (suc n)) (wait_before n c) (source (wait_before n c).world)

  unfoldable pub sync_with_retry :
      (W → W × Result SourceError A) → ℤ → Cache W A → Cache W A × Option SyncError
  unfolding attempts
  sync_with_retry source max_retries c = attempts source (attempt_count max_retries) 0 none c

-- What NewSyncableCache makes: the settings and the source.
pub record Syncable {ℓ κ} (W : Type ℓ) (A : Type κ) : Type (ℓ ⊔ κ) where
  pub config : SyncableCacheConfig
  pub source : W → W × Result SourceError A

module _ {ℓ κ} {W : Type ℓ} {A : Type κ} where
  abbrev pub made :
      SyncableCacheConfig
      → Option (W → W × Result SourceError A)
      → Option ConfigError
      → Result ConfigError (Syncable W A)
  made c source (some e) = err e
  made c none none = err invalid_config
  made c (some f) none = ok record { config = c; source = f }

  unfoldable pub new_syncable_cache :
      Option SyncableCacheConfig
      → Option (W → W × Result SourceError A)
      → Result ConfigError (Syncable W A)
  unfolding validate effective
  new_syncable_cache config source = made (effective config) source (validate (effective config))
