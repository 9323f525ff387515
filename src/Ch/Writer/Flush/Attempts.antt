-- ===== src/Ch/Writer/Flush/Attempts.antt =====
-- How often flush of ch/writer.go inserts one table's batch, and how long it sleeps in between.
use nexgo.Base.{
  ℕ, zero, suc, ◌+◌, ◌*◌, ◌^◌, ◌≤◌, ◌<◌, ◌≡◌, refl, inl, inr, pos, true, false, Option, none, some,
  List, arith, nat_beq, Bool-cases, nat_beq_iff, wrap-eq,
}
use native.Mathlib.Nat.{pow-le-pow_right}
use nexgo.Ch.Error.{TableName, Error, is_retryable_error}
use nexgo.Ch.Env.{Conn, Codec}
use nexgo.Ch.Writer.Config.{second}
use nexgo.Ch.Writer.Store.{Store, batch_insert}
use nexgo.Ch.Writer.Flush.{
  Attempt, not_tried, inserted, rejected, backoff, rounds, insert_attempts, pause, settle,
  flush_table,
}

-- Up to the 33rd retry the backoff is 2 ^ attempt seconds, with no overflow of int64.
backoff_lem : (attempt : ℕ) → attempt ≤ 33 → backoff attempt ≡ pos (2 ^ attempt * second)
unfolding backoff
backoff_lem attempt h =
    let b : 2 ^ attempt ≤ 2 ^ 33 = pow-le-pow_right (omega arith) h in
    wrap-eq 63 (2 ^ attempt * second) (omega arith) (omega arith)

module _ {W Column Row Value : Type 0} (conn : Conn W Row Value) (codec : Codec W Column Row Value)
    (t : TableName) (rows : List Row) (max : ℕ) where
  -- `Tries attempt s k a s'`: from the attempt so numbered and the state `s`, `k` calls of
  -- batchInsert lead to the outcome `a` and the state `s'`. Each but the last of them failed with a
  -- transient error before the last attempt that is allowed, and was followed by its backoff.
  pub data Tries : ℕ → Store W Column → ℕ → Attempt → Store W Column → Type 0 where
    success :
        (attempt : ℕ) (s s' : Store W Column)
        → batch_insert conn codec t rows s ≡ (none, s')
        → Tries attempt s 1 inserted s'
    permanent :
        (attempt : ℕ) (s s' : Store W Column) (e : Error)
        → batch_insert conn codec t rows s ≡ (some e, s')
        → is_retryable_error e ≡ false
        → Tries attempt s 1 (rejected e) s'
    exhausted :
        (s s' : Store W Column) (attempt : ℕ) (e : Error)
        → batch_insert conn codec t rows s ≡ (some e, s')
        → is_retryable_error e ≡ true
        → attempt ≡ max
        → Tries attempt s 1 (rejected e) s'
    again :
        (attempt k : ℕ) (s s' s'' : Store W Column) (e : Error) (a : Attempt)
        → batch_insert conn codec t rows s ≡ (some e, s')
        → is_retryable_error e ≡ true
        → attempt < max
        → Tries (attempt + 1) (pause conn codec attempt s') k a s''
        → Tries attempt s (suc k) a s''

  abbrev Run : ℕ → ℕ → Store W Column → Attempt × Store W Column → Type 0
  Run left attempt s r = (k : ℕ) × Tries attempt s k r.0 r.1 × (k ≤ left)

  -- To split on what an insertion returns.
  returns {ℓ} :
      (P : Option Error × Store W Column → Type ℓ) (r : Option Error × Store W Column)
      → ((s' : Store W Column) → r ≡ (none, s') → P (none, s'))
      → ((e : Error) (s' : Store W Column) → r ≡ (some e, s') → P (some e, s'))
      → P r
  returns P (none, s') good bad = good s' refl
  returns P (some e, s') good bad = bad e s' refl

  again-Run :
      (left attempt : ℕ) (e : Error) (s s' : Store W Column) (r : Attempt × Store W Column)
      → batch_insert conn codec t rows s ≡ (some e, s')
      → is_retryable_error e ≡ true
      → attempt < max
      → Run left (attempt + 1) (pause conn codec attempt s') r
      → Run (suc left) attempt s r
  again-Run left attempt e s s' r q y lt (k, tries, le) =
      (suc k, again attempt k s s' r.1 e r.0 q y lt tries, omega arith)

  insert_attempts-Run :
      (left attempt : ℕ) (last : Attempt) (s : Store W Column)
      → left + attempt ≡ suc max
      → 0 < left
      → Run left attempt s (insert_attempts conn codec (pos max) t rows left attempt last s)
  unfolding insert_attempts
  insert_attempts-Run zero attempt last s h p = absurd (omega arith)
  insert_attempts-Run (suc left) attempt last s h p =
      returns
        (λ r. Run (suc left) attempt s (
          settle conn codec (pos max) attempt
            (λ e. insert_attempts conn codec (pos max) t rows left (attempt + 1) (rejected e)) r))
        (batch_insert conn codec t rows s) (λ s' e. (1, success attempt s s' e, omega arith))
        (λ e s' q. elim (Bool-cases (is_retryable_error e)) [
          | inr n ↦ rw n (1, permanent attempt s s' e q n, omega arith)
          | inl y ↦ elim (Bool-cases (nat_beq attempt max)) [
            | inl l ↦
                rw (y, l)
                  (1, exhausted s s' attempt e q y ((nat_beq_iff attempt max).0 l), omega arith)
            | inr m ↦
                rw (y, m)
                  (again-Run left attempt e s s' _ q y (ground arith) (
                    insert_attempts-Run left (attempt + 1) (rejected e)
                      (pause conn codec attempt s') (omega arith) (ground arith)))
          ]
        ])

  rejected_uses_all :
      {attempt k : ℕ} {s s' : Store W Column} {a : Attempt} (e : Error)
      → Tries attempt s k a s'
      → a ≡ rejected e
      → is_retryable_error e ≡ true
      → attempt + k ≡ suc max
  rejected_uses_all e (success attempt s s' q) h y = cc
  rejected_uses_all e (permanent attempt s s' d q n) h y = cc
  rejected_uses_all e (exhausted s s' attempt d q r l) h y = omega arith
  rejected_uses_all e (again attempt k s s' s'' d a q r lt tries) h y =
      omega (arith, rejected_uses_all e tries h y)

  -- With MaxRetries at `max`, the loop of flush over the attempts at a table, in as many rounds as
  -- its for statement has, is what flush makes of the table; it calls batchInsert, which may insert
  -- twice after a schema mismatch, at least once and at most max + 1 times: a success or a permanent
  -- error ends the loop, a transient error is followed by its backoff and another call, and the
  -- table is given up on a transient error only after all max + 1 calls. Up to the 33rd retry the
  -- backoff is 2 ^ attempt seconds, with no overflow of int64.
  pub insert_attempts-Tries :
      (s : Store W Column)
      → let r = insert_attempts conn codec (pos max) t rows (rounds (pos max)) 0 not_tried s in
        ((flush_table conn codec (pos max) t rows s).0 ≡ r.0)
        × (k : ℕ) × Tries 0 s k r.0 r.1
        × (k ≤ suc max)
        × ((e : Error) → r.0 ≡ rejected e → is_retryable_error e ≡ true → k ≡ suc max)
        × ((n : ℕ) → n ≤ 33 → backoff n ≡ pos (2 ^ n * second))
  unfolding flush_table
  insert_attempts-Tries s =
      let (k, tries, most) =
        insert_attempts-Run (rounds (pos max)) 0 not_tried s (omega arith) (omega arith) in
      (refl, k, tries, most, λ e h y. omega (arith, rejected_uses_all e tries h y), backoff_lem)
