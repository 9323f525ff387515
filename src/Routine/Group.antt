-- ===== src/Routine/Group.antt =====
-- The group and the log of package routine, in every order of starts and ends.
use nexgo.Base.{
  ℕ, zero, suc, ◌+◌, ◌≡◌, refl, ap, sym, ◌∙◌, Text, true, false, Option, none, some, List, [], ◌∷◌,
  ◌++◌, length, length-append, append_assoc, append-nil, arith, nat_beq, if◌then◌else◌,
}
use nexgo.Routine.{
  Exit, finished, panicked, Field, Goroutine, Process, fields, recover_with_log, runner_go_named,
  go_named, run_goroutine, take_out, in_front, ended, wait_returns, Event, runner_goes, goes, ends,
  step, run_events,
}

-- The lines for those that panicked, in order.
abbrev pub panics : List (Text × Exit) → List (List Field)
panics [] = []
panics ((name, finished) ∷ exits) = panics exits
panics ((name, panicked value) ∷ exits) = fields name value ∷ panics exits

panics-recover_with_log :
    (name : Text) (exit : Exit) → recover_with_log name exit ≡ panics ((name, exit) ∷ [])
unfolding recover_with_log
panics-recover_with_log name finished = refl
panics-recover_with_log name (panicked value) = refl

panics-append : (xs ys : List (Text × Exit)) → panics (xs ++ ys) ≡ panics xs ++ panics ys
panics-append [] ys = refl
panics-append ((name, finished) ∷ xs) ys = panics-append xs ys
panics-append ((name, panicked value) ∷ xs) ys =
    ap (λ ls. fields name value ∷ ls) (panics-append xs ys)

module _ {W : Type 0} where
  -- How many of the goroutines are the Runner's.
  abbrev pub counted : List (Goroutine W) → ℕ
  counted [] = 0
  counted (g ∷ gs) = if g.is_counted then suc (counted gs) else counted gs

  -- How many goroutines were started.
  abbrev pub starts : List (Event W) → ℕ
  starts [] = 0
  starts (runner_goes name fn ∷ es) = suc (starts es)
  starts (goes name fn ∷ es) = suc (starts es)
  starts (ends i ∷ es) = starts es

  counted-append : (gs hs : List (Goroutine W)) → counted (gs ++ hs) ≡ counted gs + counted hs
  counted-append [] hs = omega arith
  counted-append (g ∷ gs) hs = ground (arith, counted-append gs hs)

  -- What one event does.
  record Steps (e : Event W) (p : Process W) (x : Process W × List (Text × Exit)) : Type 0 where
    pub group : p.group ≡ counted p.running → x.0.group ≡ counted x.0.running
    pub lines : x.0.lines ≡ p.lines ++ panics x.1
    pub total : length x.0.running + length x.1 ≡ length p.running + starts (e ∷ [])

  -- The list was one longer, and so was the count if the element is the Runner's.
  abbrev Removed : List (Goroutine W) → Option (Goroutine W × List (Goroutine W)) → Type 0
  Removed gs none = Unit {0}
  Removed gs (some (g, rest)) = (length gs ≡ suc (length rest)) × (counted gs ≡ counted (g ∷ rest))

  in_front-Removed :
      (g : Goroutine W) (gs : List (Goroutine W)) (o : Option (Goroutine W × List (Goroutine W)))
      → Removed gs o
      → Removed (g ∷ gs) (in_front g o)
  in_front-Removed g gs none r = tt
  in_front-Removed g gs (some (h, rest)) r = (omega (arith, r.0), ground (arith, r.1))

  take_out-Removed : (i : ℕ) (gs : List (Goroutine W)) → Removed gs (take_out i gs)
  take_out-Removed i [] = tt
  take_out-Removed zero (g ∷ gs) = (refl, refl)
  take_out-Removed (suc i) (g ∷ gs) = in_front-Removed g gs (take_out i gs) (take_out-Removed i gs)

  ended-Steps :
      (i : ℕ) (o : Option (Goroutine W × List (Goroutine W))) (p : Process W)
      → Removed p.running o
      → Steps (ends i) p (ended o p)
  unfolding ended run_goroutine
  ended-Steps i none p r = record {
    group = λ h. h;
    lines = sym (append-nil p.lines);
    total = omega arith;
  }
  ended-Steps i (some (g, rest)) p r = record {
    group = λ h. ground (arith, h, r.1);
    lines = ap (λ xs. p.lines ++ xs) (panics-recover_with_log g.name (g.fn p.world).1);
    total = omega (arith, r.0);
  }

  step-Steps : (e : Event W) (p : Process W) → Steps e p (step e p)
  unfolding step runner_go_named go_named
  step-Steps (runner_goes name fn) p = record {
    group = λ h. omega (
      arith,
      h,
      counted-append p.running (record { name = name; fn = fn; is_counted = true } ∷ []),
    );
    lines = sym (append-nil p.lines);
    total =
        omega (
          arith,
          length-append p.running (record { name = name; fn = fn; is_counted = true } ∷ []),
        );
  }
  step-Steps (goes name fn) p = record {
    group = λ h. omega (
      arith,
      h,
      counted-append p.running (record { name = name; fn = fn; is_counted = false } ∷ []),
    );
    lines = sym (append-nil p.lines);
    total =
        omega (
          arith,
          length-append p.running (record { name = name; fn = fn; is_counted = false } ∷ []),
        );
  }
  step-Steps (ends i) p = ended-Steps i (take_out i p.running) p (take_out-Removed i p.running)

  starts_split : (e : Event W) (es : List (Event W)) → starts (e ∷ es) ≡ starts (e ∷ []) + starts es
  starts_split (runner_goes name fn) es = omega arith
  starts_split (goes name fn) es = omega arith
  starts_split (ends i) es = omega arith

  -- In every order of starts and ends, from a process whose group counts the Runner's goroutines: the
  -- group counts them still, so that Wait returns exactly if none of them runs; every goroutine that
  -- panicked has left one line, in the order of their ends and with its name if it has one, and the
  -- others none; and each goroutine started runs or has ended.
  pub wait_returns-run_events :
      (es : List (Event W)) (p : Process W)
      → p.group ≡ counted p.running
      → let (q, outs) = run_events es p in
        (q.group ≡ counted q.running)
        × (wait_returns q ≡ nat_beq (counted q.running) 0)
        × (q.lines ≡ p.lines ++ panics outs)
        × (length q.running + length outs ≡ length p.running + starts es)
  wait_returns-run_events [] p h =
      (h, unfold wait_returns in ap (λ n. nat_beq n 0) h, sym (append-nil p.lines), omega arith)
  wait_returns-run_events (e ∷ es) p h =
      let now = step-Steps e p in
      let (p', out) = step e p in
      let (q, outs) = run_events es p' in
      let (group, waits, lines, total) = wait_returns-run_events es p' (now.group h) in
      (
        group,
        waits,
        lines
            ∙ ap (λ ls. ls ++ panics outs) now.lines
            ∙ append_assoc p.lines (panics out) (panics outs)
            ∙ ap (λ ls. p.lines ++ ls) (sym (panics-append out outs)),
        omega (arith, total, now.total, length-append out outs, starts_split e es),
      )
