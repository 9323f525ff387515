-- ===== src/Ch/Writer/Flush/Hooks.antt =====
-- What flush of ch/writer.go tells its two callbacks.
use nexgo.Base.{
  ℕ, zero, suc, ◌+◌, ◌≡◌, refl, sym, ap, ◌∙◌, ℤ, Bool-cases, inl, inr, not, ◌||◌, Option, none,
  some, List, [], ◌∷◌, ◌++◌, append-nil, append_assoc, length, nat_eq, list_eq,
}
use nexgo.Ch.Error.{TableName, Error, is_retryable_error}
use nexgo.Ch.Env.{Outcome, Conn, Codec}
use nexgo.Ch.Writer.Store.{Store, batch_insert}
use nexgo.Ch.Writer.Store.Frame.{Quiet, batch_insert_quiet}
use nexgo.Ch.Writer.Flush.{
  Attempt, not_tried, inserted, rejected, last_err, backoff, rounds, is_last, recovered, settle,
  insert_attempts, report_flush, safe_on_permanent_failure, conclude, flush_table, flush, count,
  Stats,
}

-- A call of MetricsHook.OnFlush, its duration left out, and one of OnPermanentFailure.
pub data Call (Row : Type 0) : Type 0 where
  reported : TableName → ℕ → Option Error → Call Row
  gave_up : TableName → List Row → Error → Call Row

-- `log` is a part of the world that only the two callbacks write: each call of one adds its entry,
-- whether it panics or not.
pub record Logs {W Column Row Value : Type 0} (conn : Conn W Row Value)
    (codec : Codec W Column Row Value) (log : W → List (Call Row)) : Type 0 where
  pub quiet : Quiet conn codec log
  pub sleep_quiet : (d : ℤ) (w : W) → log (conn.sleep d w) ≡ log w
  pub hook : TableName → ℕ → ℕ → Option Error → W → Outcome W
  pub hook_set : conn.on_flush ≡ some hook
  pub hook_logs :
      (t : TableName) (n d : ℕ) (e : Option Error) (w : W)
      → log (recovered (hook t n d e w)) ≡ log w ++ (reported t n e ∷ [])
  pub callback : TableName → List Row → Error → W → Outcome W
  pub callback_set : conn.on_permanent_failure ≡ some callback
  pub callback_logs :
      (t : TableName) (rows : List Row) (e : Error) (w : W)
      → log (recovered (callback t rows e w)) ≡ log w ++ (gave_up t rows e ∷ [])

module _ {W Column Row Value : Type 0} (conn : Conn W Row Value) (codec : Codec W Column Row Value)
    (log : W → List (Call Row)) (laws : Logs conn codec log) where
  -- The outcomes of the tables of a buffer, in the order of the flush.
  unfoldable pub outcomes : ℤ → List (TableName × List Row) → Store W Column → List Attempt
  outcomes max [] s = []
  outcomes max ((t, rows) ∷ buffer) s =
      let (a, s') = flush_table conn codec max t rows s in a ∷ outcomes max buffer s'

  abbrev pub given_up : TableName → List Row → Attempt → List (Call Row)
  given_up t rows (rejected e) = gave_up t rows e ∷ []
  given_up t rows _ = []

  -- One report for each table, and behind it the rows of a table that was given up.
  abbrev pub calls : List (TableName × List Row) → List Attempt → List (Call Row)
  calls ((t, rows) ∷ buffer) (a ∷ results) =
      reported t (length rows) (last_err a) ∷ given_up t rows a ++ calls buffer results
  calls _ _ = []

  settle_quiet :
      (max : ℤ) (attempt : ℕ) (again : Error → Store W Column → Attempt × Store W Column)
      (r : Option Error × Store W Column)
      → ((e : Error) (s : Store W Column) → log (again e s).1.world ≡ log s.world)
      → log (settle conn codec max attempt again r).1.world ≡ log r.1.world
  settle_quiet max attempt again (none, s) h = refl
  settle_quiet max attempt again (some e, s) h =
      elim (Bool-cases (not (is_retryable_error e) || is_last attempt max)) [
        | inl y ↦ rw y
        | inr n ↦ rw n (h e _ ∙ laws.sleep_quiet (backoff attempt) s.world)
      ]

  attempts_quiet :
      (max : ℤ) (t : TableName) (rows : List Row) (left attempt : ℕ) (last : Attempt)
      (s : Store W Column)
      → log (insert_attempts conn codec max t rows left attempt last s).1.world ≡ log s.world
  unfolding insert_attempts
  attempts_quiet max t rows zero attempt last s = refl
  attempts_quiet max t rows (suc left) attempt last s =
      settle_quiet max attempt
        (λ e. insert_attempts conn codec max t rows left (attempt + 1) (rejected e))
        (batch_insert conn codec t rows s)
        (λ e s. attempts_quiet max t rows left (attempt + 1) (rejected e) s)
      ∙ batch_insert_quiet conn codec log laws.quiet t rows s

  report_calls :
      (t : TableName) (n d : ℕ) (e : Option Error) (w : W)
      → log (report_flush conn codec t n d e w) ≡ log w ++ (reported t n e ∷ [])
  unfolding report_flush
  report_calls t n d e w = rw laws.hook_set (laws.hook_logs t n d e w)

  give_up_calls :
      (t : TableName) (rows : List Row) (e : Error) (w : W)
      → log (safe_on_permanent_failure conn codec t rows e w) ≡ log w ++ (gave_up t rows e ∷ [])
  unfolding safe_on_permanent_failure
  give_up_calls t rows e w = rw laws.callback_set (laws.callback_logs t rows e w)

  conclude_calls :
      (t : TableName) (rows : List Row) (start : ℕ) (a : Attempt) (w : W)
      → log (conclude conn codec t rows start a w)
        ≡ log w ++ (reported t (length rows) (last_err a) ∷ given_up t rows a)
  unfolding conclude
  conclude_calls t rows start not_tried w = report_calls t (length rows) _ none w
  conclude_calls t rows start inserted w = report_calls t (length rows) _ none w
  conclude_calls t rows start (rejected e) w =
      give_up_calls t rows e _
      ∙ ap (λ c. c ++ (gave_up t rows e ∷ [])) (report_calls t (length rows) _ (some e) w)
      ∙ append_assoc (log w) _ _

  -- Where both callbacks are set: flush calls the metrics hook exactly once for each table of the
  -- buffer, in order, with the number of its rows and the error that its attempts ended with, none
  -- if they succeeded; and it calls OnPermanentFailure with the rows and the error of exactly those
  -- tables that ended with one, each right after its report. A callback that panics changes nothing
  -- of this.
  pub flush-calls :
      (max : ℤ) (buffer : List (TableName × List Row)) (stats : Stats) (s : Store W Column)
      → log (flush conn codec max buffer stats s).1.world
        ≡ log s.world ++ calls buffer (outcomes max buffer s)
  unfolding flush outcomes flush_table
  flush-calls max [] stats s = sym (append-nil _)
  flush-calls max ((t, rows) ∷ buffer) stats s =
      let tried = insert_attempts conn codec max t rows (rounds max) 0 not_tried s in
      let after = flush_table conn codec max t rows s in
      flush-calls max buffer (count after.0 (length rows) stats) after.1
      ∙ ap (λ c. c ++ calls buffer (outcomes max buffer after.1))
          (conclude_calls t rows (conn.now s.world) tried.0 tried.1.world
            ∙ ap (λ c. c ++ (reported t (length rows) (last_err tried.0) ∷ given_up t rows tried.0))
                (attempts_quiet max t rows (rounds max) 0 not_tried s))
      ∙ append_assoc (log s.world) _ _
