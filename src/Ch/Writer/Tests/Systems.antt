-- ===== src/Ch/Writer/Tests/Systems.antt =====
-- Write and Close of ch/writer.go beside processLoop, at concrete inputs.
use nexgo.Base.{
  ℕ, suc, ◌≡◌, refl, pos, Bool, true, false, Option, none, some, List, [], ◌∷◌, ◌++◌, Dict, lookup,
  nat_eq, list_eq, length,
}
use nexgo.Ch.Error.{TableName}
use nexgo.Ch.Writer.Loop.{Loop, running, turn}
use nexgo.Ch.Writer.Loop.Order.{sent, pending, rows_for, arrived_rows}
use nexgo.Ch.Writer.System.{
  Writer, goes_on, returned, writer_closed, room, receive, find_done, write_begin, write_row,
  new_writer, close, loop_turn, event_of,
}
use nexgo.Ch.Writer.System.Reach.{Reach, created, wrote, turn_taken}
use nexgo.Ch.Writer.System.Conserved.{reached-Conserved}
use nexgo.Ch.Writer.System.Closing.{HasReturned, write-close, flushes-close}
use nexgo.Ch.Writer.Tests.Server.{Row, table_of, logs, metrics}
use nexgo.Ch.Writer.Tests.Loops.{settings}

abbrev one_buffered : Loop Row
one_buffered = record {
  buffer = (logs, (logs, 1) ∷ []) ∷ [];
  total_rows = 1;
  first_data_time = some 5;
}

abbrev rows_sent : List (Option Row)
rows_sent = some (logs, 1) ∷ some (metrics, 2) ∷ []

-- Two rows were sent, the goroutine has received the first.
abbrev two_sent : Writer Row
two_sent = record {
  queue = some (metrics, 2) ∷ [];
  is_closed = false;
  is_done = false;
  is_in_closed = false;
  loop = running one_buffered;
  flushes = [];
}

two_sent-Reach : Reach table_of settings rows_sent [] two_sent
unfolding new_writer write_row loop_turn event_of turn nexgo.Base.insert lookup
two_sent-Reach =
    wrote (some (logs, 1) ∷ []) [] (record two_sent { queue = [] }) two_sent (some (metrics, 2)) []
      (returned none) refl
      (turn_taken (some (logs, 1) ∷ []) []
        (record (new_writer table_of settings) { queue = some (logs, 1) ∷ [] }) (receive 5)
        (wrote [] [] (new_writer table_of settings)
          (record (new_writer table_of settings) { queue = some (logs, 1) ∷ [] }) (some (logs, 1))
          (some (metrics, 2) ∷ []) (goes_on (some (metrics, 2) ∷ [])) refl created))

reached-Conserved_example :
    sent metrics two_sent.flushes
      ++ (pending metrics two_sent.loop
          ++ (rows_for metrics [] ++ arrived_rows table_of settings metrics two_sent.queue))
    ≡ (metrics, 2) ∷ []
reached-Conserved_example =
    reached-Conserved table_of settings rows_sent [] two_sent metrics two_sent-Reach

write-close_example :
    (write_begin rows_sent two_sent ≡ goes_on rows_sent)
    × Reach table_of settings rows_sent [] (close two_sent)
    × (write_row room (some (logs, 1)) (some (metrics, 2) ∷ []) (close two_sent) ≡ none)
    × (write_begin rows_sent (close two_sent) ≡ returned (some writer_closed))
    × (close (close two_sent) ≡ close two_sent)
write-close_example =
    write-close table_of settings rows_sent [] two_sent (some (logs, 1)) (some (metrics, 2) ∷ [])
      two_sent-Reach refl

flushes-close_example :
    HasReturned table_of settings (loop_turn table_of settings (find_done 1) (close two_sent)).loop
    × ((t : TableName)
        → sent t (loop_turn table_of settings (find_done 1) (close two_sent)).flushes
          ≡ arrived_rows table_of settings t rows_sent)
flushes-close_example =
    flushes-close table_of settings rows_sent [] two_sent one_buffered two_sent-Reach refl refl
