-- ===== src/Ch/Writer/System/Turns.antt =====
-- One turn of processLoop of ch/writer.go beside Write and Close: what becomes of the rows.
use nexgo.Base.{
  ℕ, zero, suc, ◌≡◌, refl, ap, sym, ◌∙◌, Bool, true, false, Option, none, some, List, [], ◌∷◌, ◌++◌,
  Dict, take, drop, append-nil, append_assoc, lookup, arith, if◌then◌else◌, subst,
}
use nexgo.Ch.Error.{TableName}
use nexgo.Ch.Writer.Config.{WriterConfig}
use nexgo.Ch.Writer.Loop.{
  Event, received, channel_closed, ticked, drained, Loop, State, running, stopped, turn, resume,
  process_loop,
}
use nexgo.Ch.Writer.Loop.Counts.{Inv, StateInv, turn-StateInv}
use nexgo.Ch.Writer.Loop.Order.{
  rows_for, sent, pending, IsOrderly, sent-append, arrived, arrived_rows, process_loop_order,
}
use nexgo.Ch.Writer.System.{Writer, Ready, find_closed, event_of, turned}
use nexgo.Ch.Writer.System.Reach.{Conserved, abandons}

module _ {Row : Type 0} (table_name : Row → TableName) (c : WriterConfig) where
  pub arrived_rows-append :
      (t : TableName) (rs ss : List (Option Row))
      → arrived_rows table_name c t (rs ++ ss)
        ≡ arrived_rows table_name c t rs ++ arrived_rows table_name c t ss
  arrived_rows-append t [] ss = refl
  arrived_rows-append t (none ∷ rs) ss = arrived_rows-append t rs ss
  arrived_rows-append t (some r ∷ rs) ss = ground (arith, arrived_rows-append t rs ss)

  resume-nil :
      (x : State Row × List (Dict TableName (List Row)))
      → resume table_name c (process_loop table_name c []) x ≡ x
  unfolding process_loop
  resume-nil (running l, out) = rw (append-nil out) refl
  resume-nil (stopped l, out) = refl

  -- One turn keeps the rows that it finds.
  turn_order :
      (t : TableName) (e : Event Row) (l : Loop Row)
      → Inv c l
      → IsOrderly (e ∷ [])
      → sent t (turn table_name c e l).1 ++ pending t (turn table_name c e l).0
        ≡ rows_for t l.buffer ++ arrived table_name c t (e ∷ [])
  turn_order t e l v o =
      sym (ap (λ x. sent t x.1 ++ pending t x.0) (resume-nil (turn table_name c e l)))
      ∙ unfold process_loop in process_loop_order table_name c t (e ∷ []) l v o

  arrived_rows-take :
      (t : TableName) (n : ℕ) (q : List (Option Row))
      → arrived_rows table_name c t (take n q) ++ arrived_rows table_name c t (drop n q)
        ≡ arrived_rows table_name c t q
  arrived_rows-take t zero q = refl
  arrived_rows-take t (suc n) [] = refl
  arrived_rows-take t (suc n) (none ∷ q) = arrived_rows-take t n q
  arrived_rows-take t (suc n) (some r ∷ q) = ground (arith, arrived_rows-take t n q)

  -- What a turn takes from the channel is its front.
  abbrev pub Fits : Option (Event Row × List (Option Row)) → List (Option Row) → Type 0
  Fits none q = Unit {0}
  Fits (some (channel_closed, rest)) q = (q ≡ []) × (rest ≡ [])
  Fits (some (received r now, rest)) q = r ∷ rest ≡ q
  Fits (some (ticked now, rest)) q = rest ≡ q
  Fits (some (drained rs, rest)) q = (n : ℕ) × (rs ≡ take n q) × (rest ≡ drop n q)

  receive-Fits :
      (now : ℕ) (q : List (Option Row))
      → Fits (elim q [ [] ↦ none | r ∷ rest ↦ some (received r now, rest) ]) q
  receive-Fits now [] = tt
  receive-Fits now (r ∷ q) = refl

  find_closed-Fits :
      (b : Bool) (q : List (Option Row))
      → Fits (if b then elim q [ [] ↦ some (channel_closed, []) | r ∷ rest ↦ none ] else none) q
  find_closed-Fits true [] = (refl, refl)
  find_closed-Fits true (r ∷ q) = tt
  find_closed-Fits false q = tt

  find_done-Fits :
      (b : Bool) (n : ℕ) (q : List (Option Row))
      → Fits (if b then some (drained (take n q), drop n q) else none) q
  find_done-Fits true n q = (n, refl, refl)
  find_done-Fits false n q = tt

  pub event_of-Fits : (ready : Ready) (w : Writer Row) → Fits (event_of ready w) w.queue
  unfolding event_of
  event_of-Fits (Ready.receive now) w = receive-Fits now w.queue
  event_of-Fits (Ready.tick now) w = refl
  event_of-Fits find_closed w = find_closed-Fits w.is_in_closed w.queue
  event_of-Fits (Ready.find_done n) w = find_done-Fits w.is_done n w.queue

  -- Nothing is left behind while the goroutine runs.
  abbrev pub Left : State Row → Dict TableName (List Row) → Type 0
  Left (running l) d = d ≡ []
  Left (stopped l) d = Unit {0}

  pub record Kept (a : List (Option Row)) (d : Dict TableName (List Row)) (w : Writer Row)
      : Type 0 where
    pub conserved : (t : TableName) → Conserved table_name c t a d w
    pub counted : StateInv c w.loop
    pub left : Left w.loop d

  orderly_rows :
      (t : TableName) (e : Event Row) (rest q : List (Option Row)) (l : Loop Row)
      → Inv c l
      → IsOrderly (e ∷ [])
      → arrived table_name c t (e ∷ []) ++ arrived_rows table_name c t rest
        ≡ arrived_rows table_name c t q
      → sent t (turn table_name c e l).1
          ++ (pending t (turn table_name c e l).0 ++ arrived_rows table_name c t rest)
        ≡ rows_for t l.buffer ++ arrived_rows table_name c t q
  orderly_rows t e rest q l v o h =
      let (s, outs) = turn table_name c e l in
      sym (append_assoc (sent t outs) (pending t s) (arrived_rows table_name c t rest))
      ∙ ap (λ xs. xs ++ arrived_rows table_name c t rest) (turn_order t e l v o)
      ∙ append_assoc (rows_for t l.buffer) (arrived table_name c t (e ∷ []))
          (arrived_rows table_name c t rest)
      ∙ ap (λ xs. rows_for t l.buffer ++ xs) h

  -- The rows that a turn of the running goroutine takes from the channel and does not leave behind.
  turn_rows :
      (t : TableName) (e : Event Row) (rest q : List (Option Row)) (l : Loop Row)
      → Inv c l
      → Fits (some (e, rest)) q
      → sent t (turn table_name c e l).1
          ++ (pending t (turn table_name c e l).0
              ++ (rows_for t (abandons table_name c (running l) (some (e, rest)) [])
                  ++ arrived_rows table_name c t rest))
        ≡ rows_for t l.buffer ++ arrived_rows table_name c t q
  unfolding lookup
  turn_rows t (received r now) rest q l v f = orderly_rows t (received r now) rest q l v tt (
      ap (λ xs. xs ++ arrived_rows table_name c t rest)
        (append-nil (arrived_rows table_name c t (r ∷ [])))
      ∙ sym (arrived_rows-append t (r ∷ []) rest)
      ∙ ap (arrived_rows table_name c t) f)
  turn_rows t channel_closed rest q l v f =
      unfold turn in
      ap (λ xs. rows_for t l.buffer ++ arrived_rows table_name c t xs) (f.1 ∙ sym f.0)
  turn_rows t (ticked now) rest q l v f =
      orderly_rows t (ticked now) rest q l v tt (ap (arrived_rows table_name c t) f)
  turn_rows t (drained rs) rest q l v f =
      let (n, front, back) = f in
      orderly_rows t (drained rs) rest q l v tt (rw (front, back) (arrived_rows-take t n q))

  abandons-Left :
      (e : Event Row) (rest : List (Option Row)) (l : Loop Row)
      → Left (turn table_name c e l).0 (abandons table_name c (running l) (some (e, rest)) [])
  unfolding turn
  abandons-Left (received none now) rest l = refl
  abandons-Left (received (some r) now) rest l = ground arith
  abandons-Left channel_closed rest l = tt
  abandons-Left (ticked now) rest l = ground arith
  abandons-Left (drained rs) rest l = tt

  running-Kept :
      (a : List (Option Row)) (w : Writer Row) (l : Loop Row) (e : Event Row)
      (rest : List (Option Row))
      → Inv c l
      → Fits (some (e, rest)) w.queue
      → ((t : TableName)
          → sent t w.flushes
              ++ (rows_for t l.buffer ++ (rows_for t [] ++ arrived_rows table_name c t w.queue))
            ≡ arrived_rows table_name c t a)
      → Kept a
          (abandons table_name c (running l) (some (e, rest)) [])
          (turned table_name c (running l) (some (e, rest)) w)
  unfolding lookup
  running-Kept a w l e rest v f h = record {
    conserved = λ t.
        let (s, outs) = turn table_name c e l in
        let behind = abandons table_name c (running l) (some (e, rest)) [] in
        ap (λ xs. xs ++ (pending t s ++ (rows_for t behind ++ arrived_rows table_name c t rest)))
          (sent-append t w.flushes outs)
        ∙ append_assoc (sent t w.flushes) (sent t outs)
            (pending t s ++ (rows_for t behind ++ arrived_rows table_name c t rest))
        ∙ ap (λ xs. sent t w.flushes ++ xs) (turn_rows t e rest w.queue l v f)
        ∙ h t;
    counted = turn-StateInv table_name c e l v;
    left = abandons-Left e rest l;
  }

  pub turned-Kept :
      (a : List (Option Row)) (d : Dict TableName (List Row)) (w : Writer Row) (s : State Row)
      (o : Option (Event Row × List (Option Row)))
      → w.loop ≡ s
      → Fits o w.queue
      → Kept a d w
      → Kept a (abandons table_name c s o d) (turned table_name c s o w)
  turned-Kept a d w (stopped l) o h f k = k
  turned-Kept a d w (running l) none h f k = k
  turned-Kept a d w (running l) (some (e, rest)) h f k =
      let none_left = subst (λ s. Left s d) h k.left in
      subst
        (λ d.
          Kept a (abandons table_name c (running l) (some (e, rest)) d)
            (turned table_name c (running l) (some (e, rest)) w))
        (sym none_left)
        (running-Kept a w l e rest (subst (StateInv c) h k.counted) f (λ t.
          sym (
            ap
              (λ s.
                sent t w.flushes
                ++ (pending t s ++ (rows_for t d ++ arrived_rows table_name c t w.queue)))
              h
            ∙ ap
                (λ d.
                  sent t w.flushes
                  ++ (rows_for t l.buffer ++ (rows_for t d ++ arrived_rows table_name c t w.queue)))
                none_left)
          ∙ k.conserved t))
