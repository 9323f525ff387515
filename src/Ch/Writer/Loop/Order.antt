-- ===== src/Ch/Writer/Loop/Order.antt =====
-- No row that processLoop of ch/writer.go receives is lost, doubled or moved past another row of
-- its table, as long as the goroutine stops by the done channel.
use nexgo.Base.{
  ◌≡◌, refl, sym, ◌∙◌, ap, Bool, true, false, Option, none, some, List, [], ◌∷◌, ◌++◌, Dict, nat_eq,
  list_eq, list_beq_iff, lookup, lookup-insert, ◌==◌, arith, ltb, Bool-cases, inl, inr,
  if◌then◌else◌, append-nil, append_assoc, ltb→le,
}
use nexgo.Ch.Error.{TableName}
use nexgo.Ch.Writer.Config.{WriterConfig}
use nexgo.Ch.Writer.Loop.{
  Event, received, channel_closed, ticked, drained, Loop, State, running, stopped, rows_of,
  buffer_row, drain_channel, turn, resume, process_loop, add_row, flush_if, shutdown,
}
use nexgo.Ch.Writer.Loop.Counts.{rows_in, Inv, turn-StateInv, drain_channel_counted, StateInv}

-- The rows of a table in a buffer.
abbrev pub rows_for : {Row : Type 0} → TableName → Dict TableName (List Row) → List Row
rows_for t b = rows_of (lookup t b)

-- The rows of a table that a sequence of buffers handed to flush holds, in order.
abbrev pub sent : {Row : Type 0} → TableName → List (Dict TableName (List Row)) → List Row
sent t [] = []
sent t (b ∷ bs) = rows_for t b ++ sent t bs

-- What is still to be flushed.
abbrev pub pending : {Row : Type 0} → TableName → State Row → List Row
pending t (running l) = rows_for t l.buffer
pending t (stopped l) = []

-- No event before the shutdown finds the channel closed.
abbrev pub IsOrderly : {Row : Type 0} → List (Event Row) → Type 0
IsOrderly [] = Unit {0}
IsOrderly (channel_closed ∷ es) = ⊥
IsOrderly (drained rs ∷ es) = Unit {0}
IsOrderly (_ ∷ es) = IsOrderly es

pub sent-append :
    {Row : Type 0} (t : TableName) (xs ys : List (Dict TableName (List Row)))
    → sent t (xs ++ ys) ≡ sent t xs ++ sent t ys
sent-append t [] ys = refl
sent-append t (b ∷ xs) ys =
    rw (sent-append t xs ys) (sym (append_assoc (rows_for t b) (sent t xs) (sent t ys)))

empty-rows_for :
    {Row : Type 0} (t : TableName) (b : Dict TableName (List Row))
    → rows_in b ≡ 0
    → rows_for t b ≡ []
unfolding lookup
empty-rows_for t [] h = refl
empty-rows_for t ((u, []) ∷ b) h = ground (arith, empty-rows_for t b)
empty-rows_for t ((u, r ∷ rs) ∷ b) h = absurd (omega arith)

module _ {Row : Type 0} (table_name : Row → TableName) (c : WriterConfig) where
  -- The rows of a table among those received, up to the end of the goroutine.
  abbrev pub arrived_rows : TableName → List (Option Row) → List Row
  arrived_rows t [] = []
  arrived_rows t (none ∷ rs) = arrived_rows t rs
  arrived_rows t (some r ∷ rs) =
      if table_name r == t then r ∷ arrived_rows t rs else arrived_rows t rs

  abbrev pub arrived : TableName → List (Event Row) → List Row
  arrived t [] = []
  arrived t (received r now ∷ es) = arrived_rows t (r ∷ []) ++ arrived t es
  arrived t (channel_closed ∷ es) = []
  arrived t (ticked now ∷ es) = arrived t es
  arrived t (drained rs ∷ es) = arrived_rows t rs

  rows_for-buffer_row :
      (t : TableName) (r : Row) (b : Dict TableName (List Row))
      → rows_for t (buffer_row table_name c r b) ≡ rows_for t b ++ arrived_rows t (some r ∷ [])
  unfolding buffer_row
  rows_for-buffer_row t r b = elim (Bool-cases (table_name r == t)) [
    | inl e ↦
        rw (lookup-insert (table_name r) t (rows_for (table_name r) b ++ (r ∷ [])) b, e)
          (ap (λ u. rows_for u b ++ (r ∷ [])) ((list_beq_iff (table_name r) t).0 e))
    | inr e ↦
        rw (lookup-insert (table_name r) t (rows_for (table_name r) b ++ (r ∷ [])) b, e)
          (sym (append-nil _))
  ]

  arrived_rows-append :
      (t : TableName) (r : Option Row) (rs : List (Option Row))
      → arrived_rows t (r ∷ rs) ≡ arrived_rows t (r ∷ []) ++ arrived_rows t rs
  arrived_rows-append t none rs = refl
  arrived_rows-append t (some r) rs = elim (Bool-cases (table_name r == t)) [
    | inl e ↦ rw e
    | inr e ↦ rw e
  ]

  rows_for-drain_channel :
      (t : TableName) (rs : List (Option Row)) (l : Loop Row)
      → rows_for t (drain_channel table_name c rs l).buffer
        ≡ rows_for t l.buffer ++ arrived_rows t rs
  unfolding drain_channel
  rows_for-drain_channel t [] l = sym (append-nil _)
  rows_for-drain_channel t (none ∷ rs) l = rows_for-drain_channel t rs l
  rows_for-drain_channel t (some r ∷ rs) l =
      rows_for-drain_channel t rs _
      ∙ ap (λ xs. xs ++ arrived_rows t rs) (rows_for-buffer_row t r l.buffer)
      ∙ append_assoc (rows_for t l.buffer) _ _
      ∙ ap (λ xs. rows_for t l.buffer ++ xs) (sym (arrived_rows-append t (some r) rs))

  flush_if_rows :
      (t : TableName) (b : Bool) (l : Loop Row)
      → sent t (flush_if table_name c b l).1 ++ pending t (flush_if table_name c b l).0
        ≡ rows_for t l.buffer
  unfolding lookup
  flush_if_rows t true l = simp append-nil
  flush_if_rows t false l = refl

  shutdown_rows :
      (t : TableName) (l : Loop Row)
      → l.total_rows ≡ rows_in l.buffer
      → sent t (shutdown table_name c l).1 ++ pending t (shutdown table_name c l).0
        ≡ rows_for t l.buffer
  shutdown_rows t l h = elim (Bool-cases (ltb 0 l.total_rows)) [
    | inl e ↦ rw e (simp append-nil)
    | inr e ↦ rw e (sym (empty-rows_for t l.buffer (omega (arith, ltb→le 0 l.total_rows e))))
  ]

  shutdown_order :
      (t : TableName) (rs : List (Option Row)) (l : Loop Row)
      → Inv c l
      → sent t (shutdown table_name c (drain_channel table_name c rs l)).1 ++ []
        ≡ rows_for t l.buffer ++ arrived_rows t rs
  shutdown_order t rs l v =
      shutdown_rows t (drain_channel table_name c rs l)
        (drain_channel_counted table_name c rs l v.counted)
      ∙ rows_for-drain_channel t rs l

  -- A turn that may flush, and the rest of the loop.
  resume-flush_if :
      (t : TableName) (rest : Loop Row → State Row × List (Dict TableName (List Row))) (b : Bool)
      (l : Loop Row) (later : List Row)
      → StateInv c (flush_if table_name c b l).0
      → ((l : Loop Row)
          → Inv c l
          → sent t (rest l).1 ++ pending t (rest l).0 ≡ rows_for t l.buffer ++ later)
      → sent t (resume table_name c rest (flush_if table_name c b l)).1
          ++ pending t (resume table_name c rest (flush_if table_name c b l)).0
        ≡ rows_for t l.buffer ++ later
  unfolding lookup
  resume-flush_if t rest true l later v ih =
      append_assoc (rows_for t l.buffer) _ _ ∙ ap (λ xs. rows_for t l.buffer ++ xs) (ih _ v)
  resume-flush_if t rest false l later v ih = ih l v

  -- While the channel is not found closed before the shutdown: for each table, the rows handed to
  -- flush, in the order of the flushes, followed by those still buffered, are the rows buffered at
  -- the start followed by those received, each once and in the order of their arrival; and when the
  -- goroutine has returned, none is left behind.
  pub process_loop_order :
      (t : TableName) (es : List (Event Row)) (l : Loop Row)
      → Inv c l
      → IsOrderly es
      → sent t (process_loop table_name c es l).1 ++ pending t (process_loop table_name c es l).0
        ≡ rows_for t l.buffer ++ arrived t es
  unfolding process_loop turn
  process_loop_order t [] l v o = sym (append-nil _)
  process_loop_order t (received none now ∷ es) l v o = process_loop_order t es l v o
  process_loop_order t (received (some r) now ∷ es) l v o =
      resume-flush_if t (process_loop table_name c es) _ (add_row table_name c r now l)
        (arrived t es) (turn-StateInv table_name c (received (some r) now) l v)
        (λ l' v'. process_loop_order t es l' v' o)
      ∙ ap (λ xs. xs ++ arrived t es) (rows_for-buffer_row t r l.buffer)
      ∙ append_assoc (rows_for t l.buffer) _ _
  process_loop_order t (channel_closed ∷ es) l v o = absurd o
  process_loop_order t (ticked now ∷ es) l v o =
      resume-flush_if t (process_loop table_name c es) _ l (arrived t es)
        (turn-StateInv table_name c (ticked now) l v) (λ l' v'. process_loop_order t es l' v' o)
  process_loop_order t (drained rs ∷ es) l v o = shutdown_order t rs l v
