-- ===== src/Metrics/Flushes/Totals.antt =====
-- The metrics of metrics/chmetrics/chmetrics.go behind a flush of ch/writer.go.
use nexgo.Base.{ℕ, suc, ◌+◌, ◌≡◌, refl, ℤ, List, [], ◌∷◌, ◌++◌, length, arith}
use nexgo.Ch.Error.{TableName}
use nexgo.Ch.Env.{Conn, Codec}
use nexgo.Ch.Writer.Store.{Store}
use nexgo.Ch.Writer.Flush.{
  Attempt, not_tried, inserted, rejected, last_err, flush_table, flush, Stats,
}
use nexgo.Ch.Writer.Flush.Hooks.{
  Call, reported, gave_up, Logs, outcomes, given_up, calls, flush-calls,
}
use nexgo.Metrics.Flushes.{Sample, on_flush, at_label, rows_written_at, write_errors_at, batches_at}

module _ {Row : Type 0} where
  -- The observations of the adapter where it is the hook: its report `i` has a duration and a time.
  unfoldable pub observed : (ℕ → ℕ) → (ℕ → ℕ) → ℕ → List (Call Row) → List Sample
  unfolding on_flush
  observed duration now i [] = []
  observed duration now i (reported t n e ∷ cs) =
      on_flush t n (duration i) e (now i) ++ observed duration now (suc i) cs
  observed duration now i (gave_up t rows e ∷ cs) = observed duration now i cs

  -- The rows of a table in a buffer, its batches, and the rows handed to OnPermanentFailure.
  abbrev pub rows_of_table : TableName → List (TableName × List Row) → ℕ
  rows_of_table t [] = 0
  rows_of_table t ((u, rows) ∷ buffer) = at_label t u (length rows) + rows_of_table t buffer

  abbrev pub batches_of_table : TableName → List (TableName × List Row) → ℕ
  batches_of_table t [] = 0
  batches_of_table t ((u, rows) ∷ buffer) = at_label t u 1 + batches_of_table t buffer

  abbrev pub rows_given_up : TableName → List (Call Row) → ℕ
  rows_given_up t [] = 0
  rows_given_up t (gave_up u rows e ∷ cs) = at_label t u (length rows) + rows_given_up t cs
  rows_given_up t (reported u n e ∷ cs) = rows_given_up t cs

  abbrev Agree : TableName → List (TableName × List Row) → List (Call Row) → List Sample → Type 0
  Agree t buffer cs xs =
      (rows_written_at t xs + write_errors_at t xs ≡ rows_of_table t buffer)
      × (write_errors_at t xs ≡ rows_given_up t cs)
      × (batches_at t xs ≡ batches_of_table t buffer)

module _ {W Column Row Value : Type 0} (conn : Conn W Row Value) (codec : Codec W Column Row Value)
    (log : W → List (Call Row)) (laws : Logs conn codec log) (duration now : ℕ → ℕ) where
  one_table :
      (t u : TableName) (rows : List Row) (buffer : List (TableName × List Row)) (a : Attempt)
      (rest : List (Call Row)) (i : ℕ)
      → Agree t buffer rest (observed duration now (suc i) rest)
      → let cs =
          reported u (length rows) (last_err a) ∷ given_up conn codec log laws u rows a ++ rest in
        Agree t ((u, rows) ∷ buffer) cs (observed duration now i cs)
  unfolding observed on_flush
  one_table t u rows buffer not_tried rest i h = (omega (arith, h.0), h.1, omega (arith, h.2))
  one_table t u rows buffer inserted rest i h = (omega (arith, h.0), h.1, omega (arith, h.2))
  one_table t u rows buffer (rejected e) rest i h =
      (omega (arith, h.0), omega (arith, h.1), omega (arith, h.2))

  calls-Agree :
      (t : TableName) (max : ℤ) (buffer : List (TableName × List Row)) (s : Store W Column) (i : ℕ)
      → let cs = calls conn codec log laws buffer (outcomes conn codec log laws max buffer s) in
        Agree t buffer cs (observed duration now i cs)
  unfolding observed outcomes
  calls-Agree t max [] s i = (omega arith, refl, refl)
  calls-Agree t max ((u, rows) ∷ buffer) s i =
      let after = flush_table conn codec max u rows s in
      one_table t u rows buffer after.0
        (calls conn codec log laws buffer (outcomes conn codec log laws max buffer after.1)) i
        (calls-Agree t max buffer after.1 (suc i))

  -- Where both callbacks of the writer are set and log their calls: a flush adds calls to the log, and
  -- if the adapter's OnFlush is what each report runs, with any durations and times, then at every
  -- table the rows written and the write errors that it adds are together the rows of the table in
  -- the buffer, the write errors are exactly the rows handed to OnPermanentFailure, and one batch is
  -- observed for each of the table's.
  pub flush-observed :
      (t : TableName) (max : ℤ) (buffer : List (TableName × List Row)) (stats : Stats)
      (s : Store W Column) (i : ℕ)
      → (added : List (Call Row)) × (log (flush conn codec max buffer stats s).1.world
          ≡ log s.world ++ added)
        × (rows_written_at t (observed duration now i added)
              + write_errors_at t (observed duration now i added)
            ≡ rows_of_table t buffer)
        × (write_errors_at t (observed duration now i added) ≡ rows_given_up t added)
        × (batches_at t (observed duration now i added) ≡ batches_of_table t buffer)
  flush-observed t max buffer stats s i =
      let (sum, errors, batches) = calls-Agree t max buffer s i in
      (
        calls conn codec log laws buffer (outcomes conn codec log laws max buffer s),
        flush-calls conn codec log laws max buffer stats s,
        sum,
        errors,
        batches,
      )
