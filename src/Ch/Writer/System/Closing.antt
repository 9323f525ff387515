-- ===== src/Ch/Writer/System/Closing.antt =====
-- Close of ch/writer.go: what it does to the calls of Write around it, and that processLoop then hands
-- over every row.
use nexgo.Base.{
  ◌≡◌, refl, ap, sym, ◌∙◌, true, false, Option, none, some, List, [], ◌∷◌, ◌++◌, Dict, take, drop,
  append-nil, lookup, length, subst,
}
use nexgo.Ch.Error.{TableName}
use nexgo.Ch.Writer.Config.{WriterConfig}
use nexgo.Ch.Writer.Loop.{Event, drained, Loop, State, running, stopped, turn}
use nexgo.Ch.Writer.Loop.Order.{rows_for, sent, arrived_rows}
use nexgo.Ch.Writer.System.{
  Writer, goes_on, returned, writer_closed, find_done, room, write_begin, write_row, event_of,
  close, close_flag, close_done, close_in, turned, loop_turn,
}
use nexgo.Ch.Writer.System.Reach.{Reach, flagged, done_closed, in_closed}
use nexgo.Ch.Writer.System.Turns.{Kept, Left, turned-Kept}
use nexgo.Ch.Writer.System.Conserved.{reached-Kept}

close-first :
    {Row : Type 0} (w : Writer Row)
    → w.is_closed ≡ false
    → close w ≡ close_in (close_done (record w { is_closed = true }))
unfolding close close_flag
close-first w h = rw h refl

flag-first :
    {Row : Type 0} (w : Writer Row)
    → w.is_closed ≡ false
    → (close_flag w).1 ≡ record w { is_closed = true }
unfolding close_flag
flag-first w h = rw h refl

close_again : {Row : Type 0} (w : Writer Row) → w.is_closed ≡ false → close (close w) ≡ close w
unfolding close close_flag
close_again w h = rw h refl

-- All of a list is dropped by its length.
drop-length : {Row : Type 0} (q : List Row) → drop (length q) q ≡ []
drop-length [] = refl
drop-length (r ∷ q) = drop-length q

begin-open :
    {Row : Type 0} (w : Writer Row) (r : Option Row) (rows : List (Option Row))
    → w.is_closed ≡ false
    → write_begin (r ∷ rows) w ≡ goes_on (r ∷ rows)
unfolding write_begin
begin-open w r rows h = rw h refl

module _ {Row : Type 0} (table_name : Row → TableName) (c : WriterConfig) where
  close-Reach :
      (a : List (Option Row)) (d : Dict TableName (List Row)) (w : Writer Row)
      → w.is_closed ≡ false
      → Reach table_name c a d w
      → Reach table_name c a d (close w)
  close-Reach a d w h p = subst (Reach table_name c a d) (sym (close-first w h)) (
      in_closed a d (close_done (record w { is_closed = true })) refl (
        done_closed a d (record w { is_closed = true }) refl
          (subst (Reach table_name c a d) (flag-first w h) (flagged a d w p))))

  -- A writer not yet closed: a call of Write that has passed its check panics if Close goes through
  -- before its next row is sent; one that begins behind Close is refused; a second Close does nothing.
  pub write-close :
      (a : List (Option Row)) (d : Dict TableName (List Row)) (w : Writer Row) (r : Option Row)
      (rows : List (Option Row))
      → Reach table_name c a d w
      → w.is_closed ≡ false
      → (write_begin (r ∷ rows) w ≡ goes_on (r ∷ rows))
        × Reach table_name c a d (close w)
        × (write_row room r rows (close w) ≡ none)
        × (write_begin (r ∷ rows) (close w) ≡ returned (some writer_closed))
        × (close (close w) ≡ close w)
  write-close a d w r rows p h = (
    begin-open w r rows h,
    close-Reach a d w h p,
    ap (write_row room r rows) (close-first w h) ∙ unfold write_row in refl,
    ap (write_begin (r ∷ rows)) (close-first w h) ∙ unfold write_begin in refl,
    close_again w h,
  )

  abbrev pub HasReturned : State Row → Type 0
  HasReturned (running l) = ⊥
  HasReturned (stopped l) = Unit {0}

  -- The writer that Close leaves to the goroutine.
  abbrev closing : Writer Row → Writer Row
  closing w = close_in (close_done (record w { is_closed = true }))

  abbrev last_event : Writer Row → Option (Event Row × List (Option Row))
  last_event w = some (drained (take (length w.queue) w.queue), drop (length w.queue) w.queue)

  last_turn :
      (w : Writer Row) (l : Loop Row)
      → w.is_closed ≡ false
      → w.loop ≡ running l
      → loop_turn table_name c (find_done (length w.queue)) (close w)
        ≡ turned table_name c (running l) (last_event w) (closing w)
  unfolding loop_turn event_of
  last_turn w l h e =
      ap (loop_turn table_name c (find_done (length w.queue))) (close-first w h)
      ∙ ap (λ s. turned table_name c s (last_event w) (closing w)) e

  -- A writer not yet closed, whose goroutine runs: if processLoop takes the done channel after Close
  -- and drainChannel receives all that is in the channel, the goroutine has returned, and all rows
  -- that Write ever sent were handed to flush, those of a table in the order sent.
  pub flushes-close :
      (a : List (Option Row)) (d : Dict TableName (List Row)) (w : Writer Row) (l : Loop Row)
      → Reach table_name c a d w
      → w.is_closed ≡ false
      → w.loop ≡ running l
      → HasReturned (loop_turn table_name c (find_done (length w.queue)) (close w)).loop
        × ((t : TableName)
            → sent t (loop_turn table_name c (find_done (length w.queue)) (close w)).flushes
              ≡ arrived_rows table_name c t a)
  unfolding turn lookup
  flushes-close a d w l p h e =
      let k = reached-Kept table_name c a d w p in
      let d_empty : d ≡ [] = subst (λ s. Left table_name c s d) e k.left in
      let u : Kept table_name c a d (closing w) = record {
        conserved = k.conserved;
        counted = k.counted;
        left = k.left;
      } in
      let v =
        turned-Kept table_name c a d (closing w) (running l) (last_event w) e
          (length w.queue, refl, refl) u in
      subst
        (λ v.
          HasReturned v.loop × ((t : TableName) → sent t v.flushes ≡ arrived_rows table_name c t a))
        (sym (last_turn w l h e))
        (
          tt,
          λ t.
              let out =
                sent t (turned table_name c (running l) (last_event w) (closing w)).flushes in
              let rest = drop (length w.queue) w.queue in
              sym (append-nil out)
              ∙ ap (λ xs. out ++ xs)
                  (sym (
                    ap (λ d. rows_for t d ++ arrived_rows table_name c t rest) d_empty
                    ∙ ap (arrived_rows table_name c t) (drop-length w.queue)))
              ∙ v.conserved t,
        )
