-- ===== src/Ch/Writer/Loop.antt =====
-- processLoop, shouldFlush and drainChannel of ch/writer.go: the goroutine that collects rows by
-- table. Each turn of its select is one event; what a turn hands to flush is its result.
pub mod Counts
pub mod Order
pub mod Shutdown
pub mod Ticks
use nexgo.Base.{
  ℕ, ◌+◌, ◌-◌, ℤ, pos, Bool, true, false, ◌&&◌, Option, none, some, List, [], ◌∷◌, ◌++◌, Dict,
  nat_eq, list_eq, lookup, insert, ltb, nat_beq, ltb_ℤ, leb_ℤ, is_zero, if◌then◌else◌,
}
use nexgo.Ch.Error.{TableName}
use nexgo.Ch.Writer.Config.{WriterConfig}

-- What the select of processLoop receives. `drained` carries what drainChannel then reads from the
-- channel before it finds it empty or closed.
pub data Event (Row : Type 0) : Type 0 where
  received : Option Row → ℕ → Event Row
  channel_closed : Event Row
  ticked : ℕ → Event Row
  drained : List (Option Row) → Event Row

-- time.Time{} is `none`.
pub record Loop (Row : Type 0) : Type 0 where
  pub buffer : Dict TableName (List Row)
  pub total_rows : ℕ
  pub first_data_time : Option ℕ

-- The goroutine runs or has returned.
pub data State (Row : Type 0) : Type 0 where
  running : Loop Row → State Row
  stopped : Loop Row → State Row

-- time.Since saturates at the greatest duration.
abbrev pub since : Option ℕ → ℕ → ℕ
since none now = 9223372036854775807
since (some t) now = now - t

unfoldable pub should_flush : WriterConfig → ℕ → Option ℕ → ℕ → Bool
should_flush c total first now =
    if is_zero c.min_flush_size
    then true
    else if leb_ℤ c.min_flush_size (pos total)
    then true
    else if ltb_ℤ (pos 0) c.max_wait_time && leb_ℤ c.max_wait_time (pos (since first now))
    then true
    else false

abbrev pub rows_of : {Row : Type 0} → Option (List Row) → List Row
rows_of none = []
rows_of (some rs) = rs

module _ {Row : Type 0} (table_name : Row → TableName) (c : WriterConfig) where
  -- `buffer[tableName] = append(buffer[tableName], row)`
  unfoldable pub buffer_row : Row → Dict TableName (List Row) → Dict TableName (List Row)
  buffer_row r b = let t = table_name r in insert t (rows_of (lookup t b) ++ (r ∷ [])) b

  abbrev pub empty_loop : Loop Row
  empty_loop = record { buffer = []; total_rows = 0; first_data_time = none }

  abbrev add_row : Row → ℕ → Loop Row → Loop Row
  unfolding buffer_row
  add_row r now l = record {
    buffer = buffer_row r l.buffer;
    total_rows = l.total_rows + 1;
    first_data_time = if nat_beq l.total_rows 0 then some now else l.first_data_time;
  }

  -- flush(buffer), then a fresh buffer
  abbrev flushed : Loop Row → State Row × List (Dict TableName (List Row))
  flushed l = (running empty_loop, l.buffer ∷ [])

  abbrev flush_if : Bool → Loop Row → State Row × List (Dict TableName (List Row))
  flush_if true l = flushed l
  flush_if false l = (running l, [])

  unfoldable pub drain_channel : List (Option Row) → Loop Row → Loop Row
  unfolding buffer_row
  drain_channel [] l = l
  drain_channel (none ∷ rs) l = drain_channel rs l
  drain_channel (some r ∷ rs) l =
      drain_channel rs (record l { buffer = buffer_row r l.buffer; total_rows = l.total_rows + 1 })

  abbrev shutdown : Loop Row → State Row × List (Dict TableName (List Row))
  shutdown l = (stopped l, if ltb 0 l.total_rows then l.buffer ∷ [] else [])

  -- One turn of the select, in the running goroutine.
  unfoldable pub turn : Event Row → Loop Row → State Row × List (Dict TableName (List Row))
  unfolding buffer_row should_flush drain_channel
  turn (received none now) l = (running l, [])
  turn (received (some r) now) l =
      let l' = add_row r now l in flush_if (leb_ℤ c.flush_size (pos l'.total_rows)) l'
  turn channel_closed l = (stopped l, [])
  turn (ticked now) l =
      flush_if (ltb 0 l.total_rows && should_flush c l.total_rows l.first_data_time now) l
  turn (drained rs) l = shutdown (drain_channel rs l)

  -- The loop goes round again unless the turn returned; what was flushed is in order.
  abbrev pub resume :
      (Loop Row → State Row × List (Dict TableName (List Row)))
      → State Row × List (Dict TableName (List Row))
      → State Row × List (Dict TableName (List Row))
  resume rest (running l, out) = let (s, outs) = rest l in (s, out ++ outs)
  resume rest (stopped l, out) = (stopped l, out)

  -- The whole life of the goroutine: its last state, and what was handed to flush.
  unfoldable pub process_loop :
      List (Event Row) → Loop Row → State Row × List (Dict TableName (List Row))
  process_loop [] l = (running l, [])
  process_loop (e ∷ es) l = resume (process_loop es) (turn e l)
