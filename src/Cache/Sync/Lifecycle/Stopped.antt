-- ===== src/Cache/Sync/Lifecycle/Stopped.antt =====
-- Which contexts and goroutines of cache/syncable_cache.go Start and Stop end, and which they leave.
use nexgo.Base.{
  ℕ, ◌+◌, ◌≡◌, refl, ap, sym, ◌∙◌, true, List, [], ◌∷◌, ◌++◌, ◌↔◌, inl, inr, map, All, append_assoc,
  append-nil, arith, subst,
}
use nexgo.Cache.Sync.Lifecycle.{left, Running, Event, is_member, act, run_calls, fresh}
use nexgo.Cache.Sync.Lifecycle.Contexts.{
  starts, begun, Cancels, Tidy, act-Tidy, act_keeps, act_cancels, cancelled_now,
}
use nexgo.Cache.Sync.Lifecycle.Loops.{
  contexts_of, Parted, begun-snoc, Weaker, act-loops, act-Parted,
}

-- What holds of the state that these events lead to.
record Reached (events : List Event) (r : Running) : Type 0 where
  pub tidy : Tidy events r
  pub known : (n : ℕ) → is_member n r.cancelled ≡ true → Cancels n events
  pub spawns : contexts_of r.loops ≡ begun 0 events
  pub parted : All (Parted r.cancelled) r.loops

Cancels-snoc : (n : ℕ) (es : List Event) (e : Event) → Cancels n es → Cancels n (es ++ (e ∷ []))
unfolding Cancels
Cancels-snoc n es e (before, c, after, q, s, is) =
    (before, c, after ++ (e ∷ []), ap (λ xs. xs ++ (e ∷ [])) q ∙ append_assoc before _ _, s, is)

act-Reached :
    (before : List Event) (e : Event) (r : Running)
    → Reached before r
    → Reached (before ++ (e ∷ [])) (act e r)
unfolding Cancels
act-Reached before e r h = record {
  tidy = act-Tidy before e r h.tidy;
  known = λ n m. elim (act_cancels before e r n h.tidy m) [
    | inl old ↦ Cancels-snoc n before e (h.known n old)
    | inr (s, is) ↦ (before, e, [], refl, s, is)
  ];
  spawns =
      act-loops before e r h.tidy
      ∙ ap (λ ns. ns ++ begun (starts before) (e ∷ [])) h.spawns
      ∙ sym (
          begun-snoc 0 before e
          ∙ ap (λ k. begun 0 before ++ begun k (e ∷ [])) {x = 0 + starts before} (omega arith));
  parted = act-Parted e r h.parted;
}

run_calls-Reached :
    (before events : List Event) (r : Running)
    → Reached before r
    → Reached (before ++ events) (run_calls events r)
unfolding run_calls
run_calls-Reached before [] r h = subst (λ es. Reached es r) (sym (append-nil before)) h
run_calls-Reached before (e ∷ events) r h =
    subst (λ es. Reached es (run_calls events (act e r))) (append_assoc before (e ∷ []) events)
      (run_calls-Reached (before ++ (e ∷ [])) events (act e r) (act-Reached before e r h))

fresh-Reached : Reached [] fresh
fresh-Reached = record {
  tidy = record { contexts_made = refl; current_last = refl; stopped_by = refl };
  known = λ n h. absurd (cc);
  spawns = refl;
  parted = tt;
}

reached : (events : List Event) → Reached events (run_calls events fresh)
reached events = run_calls-Reached [] events fresh fresh-Reached

run_calls_keeps :
    (events : List Event) (r : Running) (n : ℕ)
    → is_member n r.cancelled ≡ true
    → is_member n (run_calls events r).cancelled ≡ true
unfolding run_calls
run_calls_keeps [] r n h = h
run_calls_keeps (e ∷ events) r n h = run_calls_keeps events (act e r) n (act_keeps e r n h)

run_calls-append :
    (before events : List Event) (r : Running)
    → run_calls (before ++ events) r ≡ run_calls events (run_calls before r)
unfolding run_calls
run_calls-append [] events r = refl
run_calls-append (e ∷ before) events r = run_calls-append before events (act e r)

cancels_reached :
    (n : ℕ) (events : List Event)
    → Cancels n events
    → is_member n (run_calls events fresh).cancelled ≡ true
unfolding Cancels run_calls
cancels_reached n events (before, e, after, q, s, is) =
    subst (λ r. is_member n r.cancelled ≡ true)
      (sym (ap (λ es. run_calls es fresh) q ∙ run_calls-append before (e ∷ after) fresh))
      (run_calls_keeps after (act e (run_calls before fresh)) n
        (cancelled_now before e (run_calls before fresh) n (reached before).tidy s is))

-- Whatever events come, in any order, calls of Start in their two halves: a context is cancelled exactly if, when a first synchronisation
-- failed or when Stop was called for the first time, it was the last that a call of Start had made,
-- also if that call was still under way. A goroutine was started by each successful end of a first
-- synchronisation, with the last context made by then; and a goroutine that has returned, other than
-- by a panic of the source, has such a cancelled context. So no later call of Stop ends anything, and
-- Stop does not end the goroutines of earlier contexts.
pub run_calls-Cancels :
    (events : List Event)
    → let r = run_calls events fresh in
      ((n : ℕ) → (is_member n r.cancelled ≡ true) ↔ Cancels n events)
      × (map (λ l. l.context) r.loops ≡ begun 0 events)
      × All (λ l. l.phase ≡ left → Cancels l.context events) r.loops
run_calls-Cancels events =
    let h = reached events in
    (
      (λ n. (h.known n, cancels_reached n events)),
      h.spawns,
      Weaker (run_calls events fresh).loops (λ l p e. h.known l.context (p e)) h.parted,
    )
