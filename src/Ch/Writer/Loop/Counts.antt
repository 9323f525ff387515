-- ===== src/Ch/Writer/Loop/Counts.antt =====
-- The counter of processLoop in ch/writer.go agrees with its buffer, and stays below the flush size.
use nexgo.Base.{
  ℕ, ◌+◌, ◌<◌, ◌≡◌, refl, pos, true, false, Option, none, some, List, [], ◌∷◌, ◌++◌, Dict, nat_eq,
  list_eq, lookup, insert, leb_ℤ, is_some, arith, length, length-append, Bool-cases, inl, inr,
}
use nexgo.Ch.Error.{TableName}
use nexgo.Ch.Writer.Config.{WriterConfig}
use nexgo.Ch.Writer.Loop.{
  Event, received, channel_closed, ticked, drained, Loop, State, running, stopped, rows_of,
  buffer_row, empty_loop, drain_channel, turn, resume, process_loop,
}

-- How many rows a buffer holds.
abbrev pub rows_in : {Row : Type 0} → Dict TableName (List Row) → ℕ
rows_in [] = 0
rows_in ((t, rs) ∷ b) = length rs + rows_in b

pub record Inv {Row : Type 0} (c : WriterConfig) (l : Loop Row) : Type 0 where
  pub counted : l.total_rows ≡ rows_in l.buffer
  pub stamped : 0 < l.total_rows → is_some l.first_data_time ≡ true
  pub bounded : 0 < l.total_rows → leb_ℤ c.flush_size (pos l.total_rows) ≡ false

-- What is left of the state when the goroutine has returned carries no obligation.
abbrev pub StateInv : {Row : Type 0} → WriterConfig → State Row → Type 0
StateInv c (running l) = Inv c l
StateInv c (stopped l) = l.total_rows ≡ rows_in l.buffer

rows_in-insert :
    {Row : Type 0} (t : TableName) (r : Row) (b : Dict TableName (List Row))
    → rows_in (insert t (rows_of (lookup t b) ++ (r ∷ [])) b) ≡ rows_in b + 1
unfolding lookup insert
rows_in-insert t r [] = omega arith
rows_in-insert t r ((u, rs) ∷ b) = ground (arith, rows_in-insert t r b, length-append rs (r ∷ []))

module _ {Row : Type 0} (table_name : Row → TableName) (c : WriterConfig) where
  pub rows_in-buffer_row :
      (r : Row) (b : Dict TableName (List Row))
      → rows_in (buffer_row table_name c r b) ≡ rows_in b + 1
  unfolding buffer_row
  rows_in-buffer_row r b = rows_in-insert (table_name r) r b

  pub drain_channel_counted :
      (rs : List (Option Row)) (l : Loop Row)
      → l.total_rows ≡ rows_in l.buffer
      → (drain_channel table_name c rs l).total_rows
        ≡ rows_in (drain_channel table_name c rs l).buffer
  unfolding drain_channel
  drain_channel_counted [] l h = h
  drain_channel_counted (none ∷ rs) l h = drain_channel_counted rs l h
  drain_channel_counted (some r ∷ rs) l h =
      drain_channel_counted rs _ (omega (arith, rows_in-buffer_row r l.buffer))

  pub turn-StateInv :
      (e : Event Row) (l : Loop Row) → Inv c l → StateInv c (turn table_name c e l).0
  unfolding turn
  turn-StateInv (received none now) l v = v
  turn-StateInv (received (some r) now) l v =
      elim (Bool-cases (leb_ℤ c.flush_size (pos (l.total_rows + 1)))) [
        | inl full ↦ rw full (record {
          counted = refl;
          stamped = λ h. absurd (omega arith);
          bounded = λ h. absurd (omega arith);
        })
        | inr room ↦ rw room (record {
          counted = omega (arith, v.counted, rows_in-buffer_row r l.buffer);
          stamped = ground (arith, v.stamped);
          bounded = λ _. room;
        })
      ]
  turn-StateInv channel_closed l v = v.counted
  turn-StateInv (ticked now) l v = ground arith
  turn-StateInv (drained rs) l v = drain_channel_counted rs l v.counted

  resume-StateInv :
      (rest : Loop Row → State Row × List (Dict TableName (List Row)))
      (s : State Row × List (Dict TableName (List Row)))
      → ((l : Loop Row) → Inv c l → StateInv c (rest l).0)
      → StateInv c s.0
      → StateInv c (resume table_name c rest s).0
  resume-StateInv rest (running l, out) ih v = ih l v
  resume-StateInv rest (stopped l, out) ih v = v

  -- From a loop that satisfies the invariant, after any sequence of events: the counter is the
  -- number of buffered rows, and while the goroutine runs a non-empty buffer has the time of its
  -- first row and holds fewer rows than the flush size.
  process_loop-StateInv :
      (es : List (Event Row)) (l : Loop Row)
      → Inv c l
      → StateInv c (process_loop table_name c es l).0
  unfolding process_loop
  process_loop-StateInv [] l v = v
  process_loop-StateInv (e ∷ es) l v =
      resume-StateInv (process_loop table_name c es) (turn table_name c e l)
        (process_loop-StateInv es) (turn-StateInv e l v)

  -- The invariant holds when the goroutine starts.
  pub empty_loop-Inv : Inv c (empty_loop table_name c)
  empty_loop-Inv = record {
    counted = refl;
    stamped = λ h. absurd (omega arith);
    bounded = λ h. absurd (omega arith);
  }
