-- ===== src/Ch/Writer/Flush.antt =====
-- flush of ch/writer.go: the attempts at each table of a buffer, with their backoff, the report to
-- the metrics hook and the hand-over of the rows of a table that is given up. The entries are taken
-- in the order in which the range statement yields them, which is any order.
pub mod Attempts
pub mod Hooks
pub mod Totals
use nexgo.Base.{
  ℕ, zero, suc, ◌+◌, ◌-◌, ◌*◌, ◌^◌, ℤ, pos, negsuc, Bool, true, false, not, ◌||◌, Option, none,
  some, List, [], ◌∷◌, length, nat_beq, wrap, if◌then◌else◌, leb_ℤ,
}
use nexgo.Ch.Error.{TableName, Error, is_retryable_error}
use nexgo.Ch.Env.{Outcome, returned, panicked, Conn, Codec}
use nexgo.Ch.Writer.Config.{second}
use nexgo.Ch.Writer.Store.{Store, batch_insert}

-- What the attempts at one table come to. `lastErr` is nil in the first two cases; `not_tried` is
-- the loop of no round.
pub data Attempt : Type 0 where
  not_tried : Attempt
  inserted : Attempt
  rejected : Error → Attempt

abbrev pub last_err : Attempt → Option Error
last_err (rejected e) = some e
last_err _ = none

-- `time.Duration(1<<attempt) * time.Second`, an int64
unfoldable pub backoff : ℕ → ℤ
backoff attempt = wrap 63 (2 ^ attempt * second)

-- The rounds of `for attempt := 0; attempt <= maxRetries; attempt++`
abbrev pub rounds : ℤ → ℕ
rounds (pos n) = suc n
rounds (negsuc n) = 0

-- The test `attempt == maxRetries`
abbrev pub is_last : ℕ → ℤ → Bool
is_last attempt (pos n) = nat_beq attempt n
is_last attempt (negsuc n) = false

-- The locals successRows, failedRows and totalRows.
pub record Stats : Type 0 where
  pub success_rows : ℕ
  pub failed_rows : ℕ
  pub total_rows : ℕ

abbrev pub count : Attempt → ℕ → Stats → Stats
count not_tried n s = record s { total_rows = s.total_rows + n }
count inserted n s = record s { success_rows = s.success_rows + n; total_rows = s.total_rows + n }
count (rejected e) n s = record s { failed_rows = s.failed_rows + n; total_rows = s.total_rows + n }

-- The deferred recover of reportFlush and safeOnPermanentFailure.
abbrev pub recovered : {W : Type 0} → Outcome W → W
recovered (returned w) = w
recovered (panicked w) = w

module _ {W Column Row Value : Type 0} (conn : Conn W Row Value)
    (codec : Codec W Column Row Value) where
  abbrev pub pause : ℕ → Store W Column → Store W Column
  pause attempt s = record s { world = conn.sleep (backoff attempt) s.world }

  -- What a round makes of its insertion: `again` is the rest of the loop after the backoff.
  abbrev pub settle :
      ℤ
      → ℕ
      → (Error → Store W Column → Attempt × Store W Column)
      → Option Error × Store W Column
      → Attempt × Store W Column
  settle max attempt again (none, s) = (inserted, s)
  settle max attempt again (some e, s) =
      if not (is_retryable_error e) || is_last attempt max
      then (rejected e, s)
      else again e (pause attempt s)

  -- From the round `attempt` on, with so many rounds left, after `last`.
  unfoldable pub insert_attempts :
      ℤ → TableName → List Row → ℕ → ℕ → Attempt → Store W Column → Attempt × Store W Column
  insert_attempts max t rows zero attempt last s = (last, s)
  insert_attempts max t rows (suc left) attempt last s =
      settle max attempt (λ e. insert_attempts max t rows left (attempt + 1) (rejected e))
        (batch_insert conn codec t rows s)

  unfoldable pub report_flush : TableName → ℕ → ℕ → Option Error → W → W
  report_flush t n duration e w = elim conn.on_flush [
    | none ↦ w
    | some hook ↦ recovered (hook t n duration e w)
  ]

  unfoldable pub safe_on_permanent_failure : TableName → List Row → Error → W → W
  safe_on_permanent_failure t rows e w = elim conn.on_permanent_failure [
    | none ↦ w
    | some callback ↦ recovered (callback t rows e w)
  ]

  -- What happens after the attempts at a table that began at `start`.
  unfoldable pub conclude : TableName → List Row → ℕ → Attempt → W → W
  unfolding report_flush safe_on_permanent_failure
  conclude t rows start a w =
      let w' = report_flush t (length rows) (conn.now w - start) (last_err a) w in
      elim (last_err a) [ none ↦ w' | some e ↦ safe_on_permanent_failure t rows e w' ]

  unfoldable pub flush_table : ℤ → TableName → List Row → Store W Column → Attempt × Store W Column
  flush_table max t rows s =
      let (a, s') = insert_attempts max t rows (rounds max) 0 not_tried s in
      (a, record s' { world = conclude t rows (conn.now s.world) a s'.world })

  unfoldable pub flush :
      ℤ → List (TableName × List Row) → Stats → Store W Column → Stats × Store W Column
  flush max [] stats s = (stats, s)
  flush max ((t, rows) ∷ buffer) stats s =
      let (a, s') = flush_table max t rows s in flush max buffer (count a (length rows) stats) s'
