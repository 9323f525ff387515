-- ===== src/Ch/Writer/Loop/Ticks.antt =====
-- The timer of processLoop in ch/writer.go.
use nexgo.Base.{ℕ, ◌<◌, ◌≡◌, pos, ◌≤ℤ◌, ◌-◌, some, [], ◌∷◌, ◌⊎◌, arith}
use nexgo.Ch.Error.{TableName}
use nexgo.Ch.Writer.Config.{WriterConfig}
use nexgo.Ch.Writer.Loop.{Loop, running, ticked, empty_loop, turn, should_flush}

-- When the timer finds buffered rows, the first of which came at time `start`: they are flushed as
-- one buffer and the loop starts afresh if MinFlushSize is 0, or as many rows are buffered, or
-- MaxWaitTime is set and has passed; otherwise nothing is flushed and nothing changes.
ticked_flushes :
    {Row : Type 0} (table_name : Row → TableName) (c : WriterConfig) (l : Loop Row) (start now : ℕ)
    → 0 < l.total_rows
    → l.first_data_time ≡ some start
    → let due =
        (c.min_flush_size ≡ pos 0)
        ⊎ ((c.min_flush_size ≤ℤ pos l.total_rows)
            ⊎ ((pos 1 ≤ℤ c.max_wait_time) × (c.max_wait_time ≤ℤ pos (now - start)))) in
      (due → turn table_name c (ticked now) l ≡ (running (empty_loop table_name c), l.buffer ∷ []))
      × ((¬ due) → turn table_name c (ticked now) l ≡ (running l, []))
unfolding turn should_flush
ticked_flushes table_name c l start now h e = (ground arith, ground arith)
