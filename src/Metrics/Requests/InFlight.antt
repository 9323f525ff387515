-- ===== src/Metrics/Requests/InFlight.antt =====
-- The gauge and the counts of metrics/middleware.go over all interleavings of requests.
use nexgo.Base.{
  ℕ, zero, suc, ◌+◌, ◌≡◌, refl, ap, sym, ◌∙◌, pos, Text, Option, none, some, List, [], ◌∷◌, ◌++◌,
  append-nil, append_assoc, length, arith, Bool-cases, inl, inr, if◌then◌else◌,
}
use nexgo.Metrics.Requests.{
  Request, Ended, answered, panicked, Observed, request, duration, response_size, inc, dec,
  is_skipped, after_next, red_begin, red_end, Server, Step, arrives, leaves, in_front, take_out,
  left, step, run,
}

-- How many requests were counted.
abbrev pub requests_in : List Observed → ℕ
requests_in [] = 0
requests_in (request m r s ∷ os) = suc (requests_in os)
requests_in (o ∷ os) = requests_in os

requests_in-append :
    (xs ys : List Observed) → requests_in (xs ++ ys) ≡ requests_in xs + requests_in ys
requests_in-append [] ys = omega arith
requests_in-append (request m r s ∷ os) ys = omega (arith, requests_in-append os ys)
requests_in-append (duration m r t ∷ os) ys = requests_in-append os ys
requests_in-append (response_size r n ∷ os) ys = requests_in-append os ys

module _ (skip : List Text) where
  -- The requests that are accounted.
  abbrev pub counted : List Request → ℕ
  counted [] = 0
  counted (r ∷ rs) = if is_skipped skip r then counted rs else suc (counted rs)

  -- What requests that have ended leave: nothing if they are skipped or panicked.
  abbrev pub recorded : List (Request × Ended) → List Observed
  recorded [] = []
  recorded ((r, e) ∷ out) =
      if is_skipped skip r then recorded out else after_next r e ++ recorded out

  -- How many of those that ended are accounted and did not panic.
  abbrev pub answered_in : List (Request × Ended) → ℕ
  answered_in [] = 0
  answered_in ((r, panicked) ∷ out) = answered_in out
  answered_in ((r, answered status size time) ∷ out) =
      if is_skipped skip r then answered_in out else suc (answered_in out)

  recorded-append :
      (xs ys : List (Request × Ended)) → recorded (xs ++ ys) ≡ recorded xs ++ recorded ys
  recorded-append [] ys = refl
  recorded-append ((r, e) ∷ xs) ys = elim (Bool-cases (is_skipped skip r)) [
    | inl b ↦ rw b (recorded-append xs ys)
    | inr b ↦ rw b (
        ap (λ os. after_next r e ++ os) (recorded-append xs ys)
        ∙ sym (append_assoc (after_next r e) (recorded xs) (recorded ys)))
  ]

  requests_in-recorded :
      (out : List (Request × Ended)) → requests_in (recorded out) ≡ answered_in out
  unfolding after_next
  requests_in-recorded [] = refl
  requests_in-recorded ((r, panicked) ∷ out) = elim (Bool-cases (is_skipped skip r)) [
    | inl b ↦ rw b (requests_in-recorded out)
    | inr b ↦ rw b (requests_in-recorded out)
  ]
  requests_in-recorded ((r, answered status size time) ∷ out) =
      elim (Bool-cases (is_skipped skip r)) [
        | inl b ↦ rw b (requests_in-recorded out)
        | inr b ↦ rw b (ap suc (requests_in-recorded out))
      ]

  -- Taking an element out of the list changes neither count but by that element.
  abbrev Removed : List Request → Option (Request × List Request) → Type 0
  Removed rs none = Unit
  Removed rs (some (r, rest)) = (length rs ≡ suc (length rest)) × (counted rs ≡ counted (r ∷ rest))

  in_front-Removed :
      (q : Request) (rs : List Request) (o : Option (Request × List Request))
      → Removed rs o
      → Removed (q ∷ rs) (in_front q o)
  in_front-Removed q rs none h = tt
  in_front-Removed q rs (some (r, rest)) h = (ap suc h.0, ground (arith, h.1))

  take_out-Removed : (i : ℕ) (rs : List Request) → Removed rs (take_out i rs)
  take_out-Removed i [] = tt
  take_out-Removed zero (r ∷ rs) = (refl, refl)
  take_out-Removed (suc i) (r ∷ rs) = in_front-Removed r rs (take_out i rs) (take_out-Removed i rs)

  record After (s : Server) (x : Server × List (Request × Ended)) : Type 0 where
    pub gauge :
        s.metrics.in_flight ≡ pos (counted s.serving)
        → x.0.metrics.in_flight ≡ pos (counted x.0.serving)
    pub observed : x.0.metrics.observed ≡ s.metrics.observed ++ recorded x.1

  left-After :
      (e : Ended) (o : Option (Request × List Request)) (s : Server)
      → Removed s.serving o
      → After s (left skip e o s)
  unfolding left red_end
  left-After e none s h = record { gauge = λ g. g; observed = sym (append-nil s.metrics.observed) }
  left-After e (some (r, rest)) s h = elim (Bool-cases (is_skipped skip r)) [
    | inl b ↦ record {
      gauge = λ g. rw b (g ∙ ap pos (rw b at h.1));
      observed = rw b (sym (append-nil s.metrics.observed));
    }
    | inr b ↦ record {
      gauge = λ g. rw b (ap dec (g ∙ ap pos (rw b at h.1)));
      observed = rw b (ap (λ os. s.metrics.observed ++ os) (sym (append-nil (after_next r e))));
    }
  ]

  step-After : (x : Step) (s : Server) → After s (step skip x s)
  unfolding step red_begin
  step-After (arrives r) s = record {
    gauge = λ g. elim (Bool-cases (is_skipped skip r)) [ inl b ↦ rw b g | inr b ↦ rw b (ap inc g) ];
    observed = elim (Bool-cases (is_skipped skip r)) [
      | inl b ↦ rw b (sym (append-nil s.metrics.observed))
      | inr b ↦ rw b (sym (append-nil s.metrics.observed))
    ];
  }
  step-After (leaves i e) s = left-After e (take_out i s.serving) s (take_out-Removed i s.serving)

  -- In every interleaving of requests that are taken up and left, by an answer or by a panic, from a
  -- gauge that is right: the gauge is the number of requests being served whose path is not skipped,
  -- so that a panic does not leave it too high; what was observed behind the earlier observations is
  -- what the requests that were left give, in the order in which they were left, nothing for one that
  -- is skipped or panicked; and the requests counted are those that were answered and not skipped.
  pub run-After :
      (xs : List Step) (s : Server)
      → s.metrics.in_flight ≡ pos (counted s.serving)
      → let (t, out) = run skip xs s in
        (t.metrics.in_flight ≡ pos (counted t.serving))
        × (t.metrics.observed ≡ s.metrics.observed ++ recorded out)
        × (requests_in t.metrics.observed ≡ requests_in s.metrics.observed + answered_in out)
  unfolding run
  run-After [] s g = (g, sym (append-nil s.metrics.observed), omega arith)
  run-After (x ∷ xs) s g =
      let one = step-After x s in
      let rest = run-After xs (step skip x s).0 (one.gauge g) in
      let all : (run skip (x ∷ xs) s).0.metrics.observed
          ≡ s.metrics.observed ++ recorded (run skip (x ∷ xs) s).1 =
        rest.1
        ∙ ap (λ os. os ++ recorded (run skip xs (step skip x s).0).1) one.observed
        ∙ append_assoc s.metrics.observed (recorded (step skip x s).1) _
        ∙ ap (λ os. s.metrics.observed ++ os) (sym (recorded-append (step skip x s).1 _)) in
      (
        rest.0,
        all,
        ap requests_in all
            ∙ requests_in-append s.metrics.observed (recorded (run skip (x ∷ xs) s).1)
            ∙ ap (λ n. requests_in s.metrics.observed + n)
                (requests_in-recorded (run skip (x ∷ xs) s).1),
      )
