-- ===== src/Ch/Writer/System.antt =====
-- Write and Close of ch/writer.go beside the goroutine of processLoop. The unbounded channel is a
-- library's: what stands between its two ends is a queue, from which the far end may be found empty
-- at any time; it is found closed once the near end is closed and the queue is empty.
pub mod Reach
pub mod Turns
pub mod Conserved
pub mod Closing
use nexgo.Base.{
  ℕ, Bool, true, false, Option, none, some, List, [], ◌∷◌, ◌++◌, Dict, take, drop, if◌then◌else◌,
}
use nexgo.Ch.Error.{TableName}
use nexgo.Ch.Writer.Config.{WriterConfig}
use nexgo.Ch.Writer.Loop.{
  Event, received, channel_closed, ticked, drained, State, running, stopped, turn, empty_loop,
}

-- The writer: what it accepted and processLoop has not received, the flag `closed`, whether `done` and
-- the near end of the channel are closed, the goroutine, and what it handed to flush.
pub record Writer (Row : Type 0) : Type 0 where
  pub queue : List (Option Row)
  pub is_closed : Bool
  pub is_done : Bool
  pub is_in_closed : Bool
  pub loop : State Row
  pub flushes : List (Dict TableName (List Row))

-- ErrWriterClosed, the context's error, and ErrBufferFull.
pub data WriteError : Type 0 where
  writer_closed context_done buffer_full : WriteError

-- Write has returned, or has rows left to send.
pub data Answer (Row : Type 0) : Type 0 where
  returned : Option WriteError → Answer Row
  goes_on : List (Option Row) → Answer Row

-- What the select of Write finds: room in the channel, a context that is done, or neither.
pub data Found : Type 0 where
  room cancelled full : Found

-- Which case of its select processLoop takes; the time, and how many rows drainChannel then receives.
pub data Ready : Type 0 where
  receive tick : ℕ → Ready
  find_closed : Ready
  find_done : ℕ → Ready

module _ {Row : Type 0} where
  -- Write up to its loop.
  unfoldable pub write_begin : List (Option Row) → Writer Row → Answer Row
  write_begin [] w = returned none
  write_begin (r ∷ rows) w =
      if w.is_closed then returned (some writer_closed) else goes_on (r ∷ rows)

  abbrev pub next_row : List (Option Row) → Answer Row
  next_row [] = returned none
  next_row (r ∷ rows) = goes_on (r ∷ rows)

  abbrev pub unless_closed : Bool → Writer Row × Answer Row → Option (Writer Row × Answer Row)
  unless_closed true x = none
  unless_closed false x = some x

  -- One round of the loop of Write; `none` is a panic, the send on a closed channel.
  unfoldable pub write_row :
      Found → Option Row → List (Option Row) → Writer Row → Option (Writer Row × Answer Row)
  write_row room r rows w =
      unless_closed w.is_in_closed (record w { queue = w.queue ++ (r ∷ []) }, next_row rows)
  write_row cancelled r rows w = some (w, returned (some context_done))
  write_row full r rows w = unless_closed w.is_in_closed (w, returned (some buffer_full))

  -- Close, step by step: its flag, which only the first call sets; the done channel; the data channel.
  abbrev pub swap : Bool → Writer Row → Bool × Writer Row
  swap true w = (false, w)
  swap false w = (true, record w { is_closed = true })

  unfoldable pub close_flag : Writer Row → Bool × Writer Row
  close_flag w = swap w.is_closed w

  abbrev pub close_done : Writer Row → Writer Row
  close_done w = record w { is_done = true }

  abbrev pub close_in : Writer Row → Writer Row
  close_in w = record w { is_in_closed = true }

  -- Close with no other goroutine between its steps, up to the wait.
  unfoldable pub close : Writer Row → Writer Row
  unfolding close_flag
  close w = elim (close_flag w).0 [
    | true ↦ close_in (close_done (close_flag w).1)
    | false ↦ (close_flag w).1
  ]

  -- The event that the case of the select stands for, and the queue behind it, if it is ready.
  unfoldable pub event_of : Ready → Writer Row → Option (Event Row × List (Option Row))
  event_of (receive now) w = elim w.queue [ [] ↦ none | r ∷ rest ↦ some (received r now, rest) ]
  event_of (tick now) w = some (ticked now, w.queue)
  event_of find_closed w =
      if w.is_in_closed
      then elim w.queue [ [] ↦ some (channel_closed, []) | r ∷ rest ↦ none ]
      else none
  event_of (find_done n) w =
      if w.is_done then some (drained (take n w.queue), drop n w.queue) else none

  module _ (table_name : Row → TableName) (c : WriterConfig) where
    -- newWriterWithConn, and the goroutine of Start.
    unfoldable pub new_writer : Writer Row
    new_writer = record {
      queue = [];
      is_closed = false;
      is_done = false;
      is_in_closed = false;
      loop = running (empty_loop table_name c);
      flushes = [];
    }

    abbrev pub turned : State Row → Option (Event Row × List (Option Row)) → Writer Row → Writer Row
    turned (stopped l) ready w = w
    turned (running l) none w = w
    turned (running l) (some (e, rest)) w = record w {
      queue = rest;
      loop = (turn table_name c e l).0;
      flushes = w.flushes ++ (turn table_name c e l).1;
    }

    -- One turn of processLoop, if it runs and the case is ready.
    unfoldable pub loop_turn : Ready → Writer Row → Writer Row
    unfolding event_of
    loop_turn ready w = turned w.loop (event_of ready w) w
