-- ===== src/Ch/Writer/Flush/Totals.antt =====
-- The row counts that flush of ch/writer.go logs.
use nexgo.Base.{
  ℕ, zero, suc, ◌+◌, ◌≡◌, refl, ℤ, pos, Bool, true, false, not, ◌||◌, Option, none, some, List, [],
  ◌∷◌, arith, length, inl, inr, Bool-cases,
}
use nexgo.Ch.Error.{TableName, Error, is_retryable_error}
use nexgo.Ch.Env.{Conn, Codec}
use nexgo.Ch.Writer.Store.{Store, batch_insert}
use nexgo.Ch.Writer.Loop.Counts.{rows_in}
use nexgo.Ch.Writer.Flush.{
  Attempt, not_tried, rejected, is_last, settle, insert_attempts, flush_table, flush, count, Stats,
}

abbrev is_tried : Attempt → Bool
is_tried not_tried = false
is_tried _ = true

module _ {W Column Row Value : Type 0} (conn : Conn W Row Value)
    (codec : Codec W Column Row Value) where
  settle-is_tried :
      (max : ℤ) (attempt : ℕ) (again : Error → Store W Column → Attempt × Store W Column)
      (r : Option Error × Store W Column)
      → ((e : Error) (s : Store W Column) → is_tried (again e s).0 ≡ true)
      → is_tried (settle conn codec max attempt again r).0 ≡ true
  settle-is_tried max attempt again (none, s) h = refl
  settle-is_tried max attempt again (some e, s) h =
      elim (Bool-cases (not (is_retryable_error e) || is_last attempt max)) [
        | inl y ↦ rw y
        | inr n ↦ rw n (h e _)
      ]

  attempts-is_tried :
      (max : ℤ) (t : TableName) (rows : List Row) (left attempt : ℕ) (e : Error)
      (s : Store W Column)
      → is_tried (insert_attempts conn codec max t rows left attempt (rejected e) s).0 ≡ true
  unfolding insert_attempts
  attempts-is_tried max t rows zero attempt e s = refl
  attempts-is_tried max t rows (suc left) attempt e s =
      settle-is_tried max attempt
        (λ e. insert_attempts conn codec max t rows left (attempt + 1) (rejected e))
        (batch_insert conn codec t rows s)
        (λ e s. attempts-is_tried max t rows left (attempt + 1) e s)

  flush_table-is_tried :
      (max : ℕ) (t : TableName) (rows : List Row) (s : Store W Column)
      → is_tried (flush_table conn codec (pos max) t rows s).0 ≡ true
  unfolding flush_table insert_attempts
  flush_table-is_tried max t rows s =
      settle-is_tried (pos max) 0
        (λ e. insert_attempts conn codec (pos max) t rows max (0 + 1) (rejected e))
        (batch_insert conn codec t rows s)
        (λ e s. attempts-is_tried (pos max) t rows max (0 + 1) e s)

  count_lem :
      (a : Attempt) (n : ℕ) (st : Stats)
      → is_tried a ≡ true
      → ((count a n st).success_rows + (count a n st).failed_rows
          ≡ st.success_rows + st.failed_rows + n)
        × ((count a n st).total_rows ≡ st.total_rows + n)
  count_lem a n st h = ground arith

  -- With MaxRetries not negative: the total that flush counts grows by the number of rows of the
  -- buffer, and its successful and failed rows together grow by as much, so that each row is
  -- counted on one of the two sides.
  flush_totals :
      (max : ℕ) (buffer : List (TableName × List Row)) (st : Stats) (s : Store W Column)
      → let r = (flush conn codec (pos max) buffer st s).0 in
        (r.total_rows ≡ st.total_rows + rows_in buffer)
        × (r.success_rows + r.failed_rows ≡ st.success_rows + st.failed_rows + rows_in buffer)
  unfolding flush
  flush_totals max [] st s = (omega arith, omega arith)
  flush_totals max ((t, rows) ∷ buffer) st s =
      let after = flush_table conn codec (pos max) t rows s in
      let one = count_lem after.0 (length rows) st (flush_table-is_tried max t rows s) in
      let rest = flush_totals max buffer (count after.0 (length rows) st) after.1 in
      (omega (arith, one, rest), omega (arith, one, rest))
