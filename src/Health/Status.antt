-- ===== src/Health/Status.antt =====
-- The answer of the handler of health/health.go.
use nexgo.Base.{
  ℕ, ◌<◌, ◌≡◌, refl, ap, sym, subst, ◌∙◌, ◌↔◌, ◌⊎◌, Text, Bool, true, false, Option, none, some,
  List, [], ◌∷◌, map, All, Dict, ◌==◌, lookup, lookup-insert, nat_eq, list_eq, length, arith, inl,
  inr, if◌then◌else◌,
}
use nexgo.Health.{Checker, Outcome, outcome, run_check, all_ok, state_of, dependencies, handler}
use nexgo.Health.Order.{result_of, run_order}
use mathlib.Core.List.{Memᴰ}

-- The state that the last result of a name has, or what stood there.
abbrev pub last_state : (Text → Text) → Text → List Outcome → Option Text → Option Text
last_state quote n [] before = before
last_state quote n (r ∷ rs) before =
    last_state quote n rs (if r.name == n then some (state_of quote r) else before)

module _ (quote : Text → Text) where
  lookup-dependencies :
      (n : Text) (rs : List Outcome) (deps : Dict Text Text)
      → lookup n (dependencies quote rs deps) ≡ last_state quote n rs (lookup n deps)
  unfolding dependencies
  lookup-dependencies n [] deps = refl
  lookup-dependencies n (r ∷ rs) deps =
      lookup-dependencies n rs _
      ∙ ap (last_state quote n rs) (lookup-insert r.name n (state_of quote r) deps)

  all_ok-All :
      (cs : List Checker)
      → (all_ok quote (map (result_of quote) cs) ≡ true) ↔ All (λ c. run_check quote c ≡ none) cs
  all_ok-All [] = ((λ h. tt), λ h. refl)
  all_ok-All (c ∷ cs) = by_result (all_ok-All cs) (run_check quote c) refl
    where
      by_result :
          ((all_ok quote (map (result_of quote) cs) ≡ true)
            ↔ All (λ c. run_check quote c ≡ none) cs)
          → (o : Option Text) → run_check quote c ≡ o
          → ((if (outcome c.name o).ok then all_ok quote (map (result_of quote) cs) else false)
              ≡ true)
            ↔ ((run_check quote c ≡ none) × All (λ c. run_check quote c ≡ none) cs)
      by_result ih none e = ((λ h. (e, ih.0 h)), λ h. ih.1 h.1)
      by_result ih (some x) e = ((λ h. absurd (cc)), λ h. absurd (cc (sym e ∙ h.0)))

  abbrev code_of : Bool → ℕ
  code_of ok = if ok then 200 else 503

  code_of-200 : (ok : Bool) → (code_of ok ≡ 200) ↔ (ok ≡ true)
  code_of-200 true = ((λ h. refl), λ h. refl)
  code_of-200 false = ((λ h. absurd (omega (arith, h))), λ h. absurd (cc))

  code_of_cases : (ok : Bool) → (code_of ok ≡ 200) ⊎ (code_of ok ≡ 503)
  code_of_cases true = inl refl
  code_of_cases false = inr refl

  -- In whatever order the goroutines finish: the handler answers 200 exactly if no checker fails or
  -- panics, and 503 otherwise; and what it says of a name is the state of the last checker of that
  -- name, nothing if there is none.
  pub handler_lem :
      (order : List ℕ) (cs : List Checker)
      → ((i : ℕ) → i < length cs → Memᴰ i order)
      → let a = handler quote order cs in
        ((a.code ≡ 200) ↔ All (λ c. run_check quote c ≡ none) cs)
        × ((a.code ≡ 200) ⊎ (a.code ≡ 503))
        × ((n : Text) → lookup n a.deps ≡ last_state quote n (map (result_of quote) cs) none)
  unfolding handler lookup
  handler_lem order cs covers =
      let expected = map (result_of quote) cs in
      subst
        (λ (p : Bool × List Outcome).
          ((code_of p.0 ≡ 200) ↔ All (λ c. run_check quote c ≡ none) cs)
          × ((code_of p.0 ≡ 200) ⊎ (code_of p.0 ≡ 503))
          × ((n : Text)
              → lookup n (dependencies quote p.1 [])
                ≡ last_state quote n (map (result_of quote) cs) none))
        (sym (run_order quote order cs covers))
        (
          (
            (λ h. (all_ok-All cs).0 ((code_of-200 (all_ok quote expected)).0 h)),
            λ h. (code_of-200 (all_ok quote expected)).1 ((all_ok-All cs).1 h),
          ),
          code_of_cases (all_ok quote expected),
          λ n. lookup-dependencies n expected [],
        )
