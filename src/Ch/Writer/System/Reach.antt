-- ===== src/Ch/Writer/System/Reach.antt =====
-- The interleavings of Write and Close of ch/writer.go with processLoop.
use nexgo.Base.{◌≡◌, true, Option, some, List, [], ◌∷◌, ◌++◌, Dict}
use nexgo.Ch.Error.{TableName}
use nexgo.Ch.Writer.Config.{WriterConfig}
use nexgo.Ch.Writer.Loop.{Event, channel_closed, State, running}
use nexgo.Ch.Writer.Loop.Order.{rows_for, sent, pending, arrived_rows}
use nexgo.Ch.Writer.System.{
  Writer, Answer, Ready, room, write_row, event_of, close_flag, close_done, close_in, new_writer,
  loop_turn,
}

module _ {Row : Type 0} (table_name : Row → TableName) (c : WriterConfig) where
  -- What a turn leaves behind for good: the buffer, if it finds the channel closed.
  abbrev pub abandons :
      State Row
      → Option (Event Row × List (Option Row))
      → Dict TableName (List Row)
      → Dict TableName (List Row)
  abandons (running l) (some (channel_closed, rest)) d = l.buffer
  abandons _ _ d = d

  -- `Reach a d w`: from a writer just started, calls of Write that sent the rows `a`, in this order,
  -- steps of Close and turns of the goroutine lead to the writer `w`, and the buffer `d` was left
  -- behind. A call that passed the check of `closed` may send at any later time, and what returns
  -- without sending changes nothing.
  pub data Reach : List (Option Row) → Dict TableName (List Row) → Writer Row → Type 0 where
    created : Reach [] [] (new_writer table_name c)
    wrote :
        (a : List (Option Row)) (d : Dict TableName (List Row)) (w v : Writer Row) (r : Option Row)
        (rows : List (Option Row)) (answer : Answer Row)
        → write_row room r rows w ≡ some (v, answer)
        → Reach a d w
        → Reach (a ++ (r ∷ [])) d v
    flagged :
        (a : List (Option Row)) (d : Dict TableName (List Row)) (w : Writer Row)
        → Reach a d w
        → Reach a d (close_flag w).1
    done_closed :
        (a : List (Option Row)) (d : Dict TableName (List Row)) (w : Writer Row)
        → w.is_closed ≡ true
        → Reach a d w
        → Reach a d (close_done w)
    in_closed :
        (a : List (Option Row)) (d : Dict TableName (List Row)) (w : Writer Row)
        → w.is_done ≡ true
        → Reach a d w
        → Reach a d (close_in w)
    turn_taken :
        (a : List (Option Row)) (d : Dict TableName (List Row)) (w : Writer Row) (ready : Ready)
        → Reach a d w
        → Reach a (abandons w.loop (event_of ready w) d) (loop_turn table_name c ready w)

  -- The rows sent, wherever they are: handed to flush, buffered, left behind, in the channel.
  abbrev pub Conserved :
      TableName → List (Option Row) → Dict TableName (List Row) → Writer Row → Type 0
  Conserved t a d w =
      sent t w.flushes
        ++ (pending t w.loop ++ (rows_for t d ++ arrived_rows table_name c t w.queue))
      ≡ arrived_rows table_name c t a
