-- ===== src/Cache/Sync/Outcome.antt =====
-- NewSyncableCache of cache/syncable_cache.go and the synchronisations of what it makes.
use nexgo.Base.{
  ℕ, zero, suc, ◌≤◌, ◌≡◌, ◌≢◌, ◌⊎◌, inl, inr, refl, ap, sym, ◌∙◌, ℤ, pos, negsuc, true, false,
  Option, none, some, List, length, Result, ok, err, arith, is_some, not_positive,
}
use nexgo.Base.Texts.{is_empty_text}
use nexgo.Cache.Config.{SyncableCacheConfig, ConfigError, validate, effective}
use nexgo.Cache.Sync.{
  SourceError, SyncError, err_sync, Cache, sync_with_retry, Syncable, new_syncable_cache, made,
}
use nexgo.Cache.Sync.Verdict.{conclusion, answers, used, last_of, pauses_from, sync_with_retry_lem}

validate-none :
    (c : SyncableCacheConfig)
    → validate c ≡ none
    → (is_empty_text c.name ≡ false) × (not_positive c.max_retries ≡ false)
unfolding validate
validate-none c h = ground arith

positive : (z : ℤ) → not_positive z ≡ false → (k : ℕ) × (z ≡ pos (suc k))
positive (pos zero) h = cc
positive (pos (suc n)) h = (n, refl)
positive (negsuc n) h = cc

name-effective :
    (config : Option SyncableCacheConfig)
    → is_empty_text (effective config).name ≡ false
    → is_some config ≡ true
unfolding effective nexgo.Cache.Config.default_syncable_cache_config
name-effective none h = cc
name-effective (some c) h = refl

module _ {ℓ κ} {W : Type ℓ} {A : Type κ} where
  made-ok :
      (config : SyncableCacheConfig) (f : W → W × Result SourceError A)
      (checked : Option ConfigError) (s : Syncable W A)
      → made config (some f) checked ≡ ok s
      → (checked ≡ none) × (s.config ≡ config) × (s.source ≡ f)
  made-ok config f none s h = (
    refl,
    sym (ap (λ r. elim r [ ok t ↦ t.config | err e ↦ config ]) h),
    sym (ap (λ r. elim r [ ok t ↦ t.source | err e ↦ f ]) h),
  )
  made-ok config f (some e) s h = cc

  -- What a synchronisation promises: an error tells of an error of the source and leaves the cache.
  abbrev pub Kept : Cache W A → Cache W A × Option SyncError → Type κ
  Kept c (d, e) = (e ≢ some (err_sync none)) × ((e ≡ none) ⊎ (d.cache ≡ c.cache))

  conclusion-Kept :
      (waited : List ℤ) (c : Cache W A) (x : W × Result SourceError A)
      → Kept c (conclusion waited c x)
  conclusion-Kept waited c (w, ok a) = (cc, inl refl)
  conclusion-Kept waited c (w, err e) = (λ h. ground arith, inr refl)

  -- What NewSyncableCache makes was given settings, and has the source given and at least one attempt:
  -- each of its synchronisations asks the source at least once, and if it fails, its error is around
  -- one of the source, and the cache is as it was.
  pub sync-new_syncable_cache :
      (config : Option SyncableCacheConfig) (f : W → W × Result SourceError A) (s : Syncable W A)
      (c : Cache W A)
      → new_syncable_cache config (some f) ≡ ok s
      → (is_some config ≡ true)
        × (s.source ≡ f)
        × ((k : ℕ) × (s.config.max_retries ≡ pos (suc k))
            × (1 ≤ length (used (answers s.source (suc k) c.world))))
        × Kept c (sync_with_retry s.source s.config.max_retries c)
  unfolding new_syncable_cache
  sync-new_syncable_cache config f s c h =
      let (checked, same, asked) = made-ok (effective config) f (validate (effective config)) s h in
      let (named, tried) = validate-none (effective config) checked in
      let (k, e) =
        positive s.config.max_retries (ap (λ c. not_positive c.max_retries) same ∙ tried) in
      let (told, least, most, paused) = sync_with_retry_lem s.source k c in
      (
        name-effective config named,
        asked,
        (k, e, least),
        rw e (
            rw told (
              conclusion-Kept (pauses_from 0 (length (used (answers s.source (suc k) c.world)))) c
                (last_of (s.source c.world) (used (answers s.source (suc k) c.world))))),
      )
