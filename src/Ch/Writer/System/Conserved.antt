-- ===== src/Ch/Writer/System/Conserved.antt =====
-- Every row that Write of ch/writer.go puts into the channel, in any interleaving of its callers, of
-- Close and of processLoop.
use nexgo.Base.{
  ◌≡◌, refl, ap, sym, ◌∙◌, Bool, true, false, Option, none, some, List, [], ◌∷◌, ◌++◌, Dict,
  append_assoc, lookup, subst,
}
use nexgo.Ch.Error.{TableName}
use nexgo.Ch.Writer.Config.{WriterConfig}
use nexgo.Ch.Writer.Loop.Counts.{empty_loop-Inv}
use nexgo.Ch.Writer.Loop.Order.{rows_for, sent, pending, arrived_rows}
use nexgo.Ch.Writer.System.{
  Writer, Answer, room, next_row, write_row, event_of, close_flag, new_writer, loop_turn, swap,
  unless_closed,
}
use nexgo.Ch.Writer.System.Reach.{
  Conserved, Reach, created, wrote, flagged, done_closed, in_closed, turn_taken,
}
use nexgo.Ch.Writer.System.Turns.{Kept, turned-Kept, event_of-Fits, arrived_rows-append}

module _ {Row : Type 0} (table_name : Row → TableName) (c : WriterConfig) where
  further_out :
      (xs ys zs us vs : List Row)
      → xs ++ (ys ++ (zs ++ (us ++ vs))) ≡ (xs ++ (ys ++ (zs ++ us))) ++ vs
  further_out xs ys zs us vs = simp append_assoc

  sent_row :
      (b : Bool) (x v : Writer Row) (p q : Answer Row)
      → unless_closed b (x, p) ≡ some (v, q)
      → x ≡ v
  sent_row true x v p q h = cc
  sent_row false x v p q h = ap (λ o. elim o [ none ↦ x | some y ↦ y.0 ]) h

  queued-Kept :
      (a : List (Option Row)) (d : Dict TableName (List Row)) (w : Writer Row) (r : Option Row)
      → Kept table_name c a d w
      → Kept table_name c (a ++ (r ∷ [])) d (record w { queue = w.queue ++ (r ∷ []) })
  queued-Kept a d w r k = record {
    conserved = λ t.
        let one = arrived_rows table_name c t (r ∷ []) in
        ap (λ xs. sent t w.flushes ++ (pending t w.loop ++ (rows_for t d ++ xs)))
          (arrived_rows-append table_name c t w.queue (r ∷ []))
        ∙ further_out (sent t w.flushes) (pending t w.loop) (rows_for t d)
            (arrived_rows table_name c t w.queue) one
        ∙ ap (λ xs. xs ++ one) (k.conserved t)
        ∙ sym (arrived_rows-append table_name c t a (r ∷ []));
    counted = k.counted;
    left = k.left;
  }

  wrote-Kept :
      (a : List (Option Row)) (d : Dict TableName (List Row)) (w v : Writer Row) (r : Option Row)
      (rows : List (Option Row)) (answer : Answer Row)
      → write_row room r rows w ≡ some (v, answer)
      → Kept table_name c a d w
      → Kept table_name c (a ++ (r ∷ [])) d v
  unfolding write_row
  wrote-Kept a d w v r rows answer h k =
      subst (Kept table_name c (a ++ (r ∷ [])) d)
        (sent_row w.is_in_closed (record w { queue = w.queue ++ (r ∷ []) }) v (next_row rows) answer
          h)
        (queued-Kept a d w r k)

  flagged-Kept :
      (a : List (Option Row)) (d : Dict TableName (List Row)) (w : Writer Row) (b : Bool)
      → Kept table_name c a d w
      → Kept table_name c a d (swap b w).1
  flagged-Kept a d w true k = k
  flagged-Kept a d w false k = record {
    conserved = k.conserved;
    counted = k.counted;
    left = k.left;
  }

  pub reached-Kept :
      (a : List (Option Row)) (d : Dict TableName (List Row)) (w : Writer Row)
      → Reach table_name c a d w
      → Kept table_name c a d w
  unfolding new_writer close_flag loop_turn lookup
  reached-Kept _ _ _ created = record {
    conserved = λ t. refl;
    counted = empty_loop-Inv table_name c;
    left = refl;
  }
  reached-Kept _ _ _ (wrote a d w v r rows answer h p) =
      wrote-Kept a d w v r rows answer h (reached-Kept a d w p)
  reached-Kept _ _ _ (flagged a d w p) = flagged-Kept a d w w.is_closed (reached-Kept a d w p)
  reached-Kept _ _ _ (done_closed a d w h p) =
      let k = reached-Kept a d w p in
      record { conserved = k.conserved; counted = k.counted; left = k.left }
  reached-Kept _ _ _ (in_closed a d w h p) =
      let k = reached-Kept a d w p in
      record { conserved = k.conserved; counted = k.counted; left = k.left }
  reached-Kept _ _ _ (turn_taken a d w ready p) =
      turned-Kept table_name c a d w w.loop (event_of ready w) refl
        (event_of-Fits table_name c ready w) (reached-Kept a d w p)

  -- In every interleaving of callers of Write, steps of Close and turns of processLoop: for each table
  -- the rows handed to flush, then those buffered, then those of the buffer that the goroutine left
  -- when it found the channel closed, then those still in the channel, are the rows that Write sent,
  -- each once and in the order sent.
  pub reached-Conserved :
      (a : List (Option Row)) (d : Dict TableName (List Row)) (w : Writer Row) (t : TableName)
      → Reach table_name c a d w
      → Conserved table_name c t a d w
  reached-Conserved a d w t p = (reached-Kept a d w p).conserved t
