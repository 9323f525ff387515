-- ===== src/Ch/Writer/Tests/Loops.antt =====
-- processLoop of ch/writer.go on a sequence of events.
use nexgo.Base.{
  ℕ, suc, ◌+◌, ◌*◌, ◌^◌, ◌<◌, ◌≤◌, ◌≡◌, ◌≢◌, refl, ◌↔◌, ◌⊎◌, inl, inr, ℤ, pos, ◌≤ℤ◌, ◌-◌, pos_part,
  Bool, true, false, Option, none, some, List, [], ◌∷◌, ◌++◌, map, keep, Dict, lookup, nat_eq,
  list_eq, Result, ok, err, Text, codes, All, length, arith, ltb_ℤ, if◌then◌else◌,
}
use nexgo.Ch.Error.{TableName}
use nexgo.Ch.Writer.Config.{WriterConfig, second}
use nexgo.Ch.Writer.Loop.{
  Event, received, channel_closed, ticked, drained, Loop, empty_loop, turn, process_loop,
}
use nexgo.Ch.Writer.Loop.Counts.{empty_loop-Inv}
use nexgo.Ch.Writer.Loop.Order.{sent, pending, arrived_rows, process_loop_order}
use nexgo.Ch.Writer.Loop.Shutdown.{receipts, channel_closed_loses_rows}
use nexgo.Ch.Writer.Tests.Server.{Row, table_of, logs, metrics}

abbrev pub settings : WriterConfig
settings = record {
  flush_interval = pos (10 * second);
  flush_size = pos 3;
  min_flush_size = pos 2;
  max_wait_time = pos (60 * second);
  schema_refresh_interval = pos 0;
  max_retries = pos 1;
}

abbrev row_events : List (Event Row)
row_events =
    received (some (logs, 1)) 5
    ∷ received (some (metrics, 2)) 6
    ∷ received (some (logs, 3)) 7
    ∷ received (some (logs, 4)) 8
    ∷ ticked 9
    ∷ drained (some (metrics, 5) ∷ none ∷ [])
    ∷ []

-- The third row fills the buffer, the timer finds one row too few and too fresh, and the shutdown
-- flushes the rest.
abbrev flushed_buffers : List (Dict TableName (List Row))
flushed_buffers =
    ((logs, (logs, 1) ∷ (logs, 3) ∷ []) ∷ (metrics, (metrics, 2) ∷ []) ∷ [])
    ∷ ((logs, (logs, 4) ∷ []) ∷ (metrics, (metrics, 5) ∷ []) ∷ [])
    ∷ []

process_loop_flushes :
    (process_loop table_of settings row_events (empty_loop table_of settings)).1 ≡ flushed_buffers
unfolding process_loop turn nexgo.Base.insert lookup
process_loop_flushes = refl

process_loop_order_example :
    sent logs (process_loop table_of settings row_events (empty_loop table_of settings)).1
      ++ pending logs (process_loop table_of settings row_events (empty_loop table_of settings)).0
    ≡ (logs, 1) ∷ (logs, 3) ∷ (logs, 4) ∷ []
unfolding lookup
process_loop_order_example =
    process_loop_order table_of settings logs row_events (empty_loop table_of settings)
      (empty_loop-Inv table_of settings) tt

channel_closed_loses_rows_example :
    ((process_loop table_of settings
        (receipts table_of settings 7 ((logs, 1) ∷ (logs, 2) ∷ []) ++ (channel_closed ∷ []))
        (empty_loop table_of settings)).1
      ≡ [])
    × ((t : TableName)
        → sent t
            (process_loop table_of settings
              (receipts table_of settings 7 ((logs, 1) ∷ (logs, 2) ∷ []) ++ (drained [] ∷ []))
              (empty_loop table_of settings)).1
          ≡ arrived_rows table_of settings t (some (logs, 1) ∷ some (logs, 2) ∷ []))
channel_closed_loses_rows_example =
    channel_closed_loses_rows table_of settings 7 ((logs, 1) ∷ (logs, 2) ∷ []) refl

abbrev one_row : Loop Row
one_row = record { buffer = (logs, (logs, 1) ∷ []) ∷ []; total_rows = 1; first_data_time = some 5 }

abbrev Due : ℕ → Type 0
Due now =
    (pos 2 ≡ pos 0)
    ⊎ ((pos 2 ≤ℤ pos 1) ⊎ ((pos 1 ≤ℤ pos (60 * second)) × (pos (60 * second) ≤ℤ pos (now - 5))))
