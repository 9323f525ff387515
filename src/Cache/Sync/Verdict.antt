-- ===== src/Cache/Sync/Verdict.antt =====
-- What a synchronisation of cache/syncable_cache.go comes to, told from the answers that its source
-- would give to as many calls in a row.
use nexgo.Base.{
  ℕ, zero, suc, ◌*◌, ◌^◌, ◌≤◌, ◌≡◌, refl, ap, sym, ◌∙◌, ℤ, pos, Bool, true, false, Option, none,
  some, List, [], ◌∷◌, ◌++◌, append_assoc, append-nil, length, Result, ok, err, if◌then◌else◌,
  Bool-cases, inl, inr, arith, wrap-eq,
}
use nexgo.Cache.Config.{second}
use nexgo.Cache.Sync.{
  SourceError, SyncError, err_sync, Cache, is_retryable_error, retry_backoff, attempts,
  sync_with_retry, wait_before, after_answer,
}

-- Up to the 34th retry the pause is 2 ^ n seconds, with no overflow of int64.
pub retry_backoff_lem : (n : ℕ) → n ≤ 33 → retry_backoff n ≡ pos (2 ^ n * second)
unfolding retry_backoff
retry_backoff_lem n h =
    let b : 2 ^ n ≤ 2 ^ 33 = native.Mathlib.Nat.pow-le-pow_right (omega arith) h in
    wrap-eq 63 (2 ^ n * second) (omega arith) (omega arith)

abbrev pub last_of {ℓ} : {A : Type ℓ} → A → List A → A
last_of x [] = x
last_of x (y ∷ ys) = last_of y ys

-- The pauses before so many attempts, the first of them attempt `n`.
abbrev pub pauses_from : ℕ → ℕ → List ℤ
pauses_from n zero = []
pauses_from zero (suc k) = pauses_from 1 k
pauses_from (suc n) (suc k) = retry_backoff n ∷ pauses_from (suc (suc n)) k

module _ {ℓ κ} {W : Type ℓ} {A : Type κ} where
  -- The answers to so many calls in a row.
  abbrev pub answers : (W → W × Result SourceError A) → ℕ → W → List (W × Result SourceError A)
  answers source zero w = []
  answers source (suc n) w = source w ∷ answers source n (source w).0

  abbrev pub is_final : W × Result SourceError A → Bool
  is_final (w, ok a) = true
  is_final (w, err e) = if is_retryable_error e then false else true

  -- The answers up to the first that is a success or an error that no retry mends.
  abbrev pub used : List (W × Result SourceError A) → List (W × Result SourceError A)
  used [] = []
  used (a ∷ rest) = let more = used rest in if is_final a then a ∷ [] else a ∷ more

  -- The last answer is the one that counts: a success fills the cache, an error leaves it.
  abbrev pub conclusion :
      List ℤ → Cache W A → W × Result SourceError A → Cache W A × Option SyncError
  conclusion waited c (w, ok a) =
      (record { world = w; cache = a; pauses = c.pauses ++ waited }, none)
  conclusion waited c (w, err e) =
      (record { world = w; cache = c.cache; pauses = c.pauses ++ waited }, some (err_sync (some e)))

  conclusion-wait_before :
      (n k : ℕ) (c : Cache W A) (x : W × Result SourceError A)
      → conclusion (pauses_from (suc n) k) (wait_before n c) x
        ≡ conclusion (pauses_from n (suc k)) c x
  conclusion-wait_before zero k c x = refl
  conclusion-wait_before (suc n) k c (w, ok a) =
      rw (append_assoc c.pauses (retry_backoff n ∷ []) (pauses_from (suc (suc n)) k)) refl
  conclusion-wait_before (suc n) k c (w, err e) =
      rw (append_assoc c.pauses (retry_backoff n ∷ []) (pauses_from (suc (suc n)) k)) refl

  -- One answer, given what the attempts behind it come to.
  after_answer_lem :
      (more : Option SourceError → Cache W A → Cache W A × Option SyncError) (n : ℕ) (c : Cache W A)
      (x : W × Result SourceError A) (rest : List (W × Result SourceError A))
      → ((w : W) (e : SourceError)
          → x ≡ (w, err e)
          → more (some e) (record (wait_before n c) { world = w })
            ≡ conclusion
                (pauses_from (suc n) (length (used rest)))
                (wait_before n c)
                (last_of x (used rest)))
      → after_answer more (wait_before n c) x
        ≡ conclusion (pauses_from n (length (used (x ∷ rest)))) c (last_of x (used (x ∷ rest)))
  after_answer_lem more n c (w, ok a) rest h =
      rw (sym (append-nil (wait_before n c).pauses)) (conclusion-wait_before n 0 c (w, ok a))
  after_answer_lem more n c (w, err e) rest h = elim (Bool-cases (is_retryable_error e)) [
    | inl again ↦ rw again (
        h w e refl
        ∙ conclusion-wait_before n (length (used rest)) c (last_of (w, err e) (used rest)))
    | inr final ↦
        rw final
          (rw (sym (append-nil (wait_before n c).pauses)) (conclusion-wait_before n 0 c (w, err e)))
  ]

  last_of-used :
      (x z y : W × Result SourceError A) (rest : List (W × Result SourceError A))
      → last_of x (used (y ∷ rest)) ≡ last_of z (used (y ∷ rest))
  last_of-used x z y rest = ground arith

  world-wait_before : (n : ℕ) (c : Cache W A) → (wait_before n c).world ≡ c.world
  world-wait_before zero c = refl
  world-wait_before (suc n) c = refl

  conclusion-world :
      (ps : List ℤ) (c : Cache W A) (w : W) (x : W × Result SourceError A)
      → conclusion ps (record c { world = w }) x ≡ conclusion ps c x
  conclusion-world ps c w (v, ok a) = refl
  conclusion-world ps c w (v, err e) = refl

  conclusion-err :
      (c : Cache W A) (w : W) (e : SourceError)
      → conclusion [] c (w, err e) ≡ (record c { world = w }, some (err_sync (some e)))
  conclusion-err c w e = rw (append-nil c.pauses) refl

  attempts_lem :
      (source : W → W × Result SourceError A) (left n : ℕ) (last : Option SourceError)
      (c : Cache W A)
      → attempts source (suc left) n last c
        ≡ conclusion
            (pauses_from n (length (used (answers source (suc left) c.world))))
            c
            (last_of (source c.world) (used (answers source (suc left) c.world)))
  unfolding attempts
  attempts_lem source zero n last c = rw (world-wait_before n c) (
      after_answer_lem (attempts source zero (suc n)) n c (source c.world) [] (λ w e h.
        sym (ap (conclusion [] (wait_before n c)) h ∙ conclusion-err (wait_before n c) w e)))
  attempts_lem source (suc left) n last c = rw (world-wait_before n c) (
      after_answer_lem (attempts source (suc left) (suc n)) n c (source c.world)
        (answers source (suc left) (source c.world).0)
        (λ w e h. rw h (
          let told = used (answers source (suc left) w) in
          attempts_lem source left (suc n) (some e) (record (wait_before n c) { world = w })
          ∙ conclusion-world (pauses_from (suc n) (length told)) (wait_before n c) w
              (last_of (source w) told)
          ∙ ap (conclusion (pauses_from (suc n) (length told)) (wait_before n c))
              (last_of-used (source w) (w, err e) (source w) (answers source left (source w).0)))))

  length-used :
      (x : W × Result SourceError A) (rest : List (W × Result SourceError A))
      → (1 ≤ length (used (x ∷ rest))) × (length (used (x ∷ rest)) ≤ suc (length rest))
  length-used x [] = ground arith
  length-used x (y ∷ rest) = ground (arith, length-used y rest)

  length-answers :
      (source : W → W × Result SourceError A) (n : ℕ) (w : W) → length (answers source n w) ≡ n
  length-answers source zero w = refl
  length-answers source (suc n) w = omega (arith, length-answers source n (source w).0)

  -- A synchronisation with at least one attempt asks its source between once and max_retries times, as
  -- long as the answers are errors that a retry may mend. The last answer counts: a success fills the
  -- cache and is no error; an error is wrapped and leaves the cache as it was. Before each retry stands
  -- a pause, of 2 ^ n seconds before attempt n + 2 for n up to 33.
  pub sync_with_retry_lem :
      (source : W → W × Result SourceError A) (k : ℕ) (c : Cache W A)
      → (sync_with_retry source (pos (suc k)) c
          ≡ conclusion
              (pauses_from 0 (length (used (answers source (suc k) c.world))))
              c
              (last_of (source c.world) (used (answers source (suc k) c.world))))
        × (1 ≤ length (used (answers source (suc k) c.world)))
        × (length (used (answers source (suc k) c.world)) ≤ suc k)
        × ((n : ℕ) → n ≤ 33 → retry_backoff n ≡ pos (2 ^ n * second))
  unfolding sync_with_retry
  sync_with_retry_lem source k c =
      let (least, most) = length-used (source c.world) (answers source k (source c.world).0) in
      (
        attempts_lem source k 0 none c,
        least,
        omega (arith, length-answers source k (source c.world).0),
        retry_backoff_lem,
      )
