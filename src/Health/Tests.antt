-- ===== src/Health/Tests.antt =====
-- The probes of health/health.go at concrete inputs: three checkers, the last two of one name, whose
-- goroutines finish in another order.
use nexgo.Base.{
  ℕ, zero, suc, ◌+◌, ◌<◌, ◌≡◌, ◌↔◌, ◌⊎◌, refl, Text, codes, Option, none, some, List, [], ◌∷◌, map,
  All, lookup, nat_eq, list_eq, length, arith, Bool, true, false,
}
use nexgo.Health.{Checker, returns, panics, run_check, all_ok, run, handler}
use nexgo.Health.Order.{result_of, run_order}
use nexgo.Health.Status.{last_state, handler_lem}
use mathlib.Core.List.{Memᴰ}
use mathlib.Core.List.Memᴰ.{head, tail}

abbrev plain : Text → Text
plain name = name

abbrev checkers : List Checker
checkers =
    record { name = codes "db"; check = returns none }
    ∷ record { name = codes "redis"; check = panics (codes "nil map") }
    ∷ record { name = codes "redis"; check = returns none }
    ∷ []

abbrev order : List ℕ
order = 2 ∷ 0 ∷ 1 ∷ []

covers : (i : ℕ) → i < 3 → Memᴰ i order
covers zero h = tail (head refl)
covers (suc zero) h = tail (tail (head refl))
covers (suc (suc zero)) h = head refl
covers (suc (suc (suc i))) h = absurd (omega (arith, h))

-- The status is an error, while the only state that is told of redis is ok.
hidden_failure :
    ((handler plain order checkers).code ≡ 503)
    × (lookup (codes "redis") (handler plain order checkers).deps ≡ some (codes "ok"))
unfolding handler lookup nexgo.Base.insert
hidden_failure = (refl, refl)

run_order_example :
    run plain order checkers
    ≡ (all_ok plain (map (result_of plain) checkers), map (result_of plain) checkers)
run_order_example = run_order plain order checkers covers

handler_example :
    let a = handler plain order checkers in
    ((a.code ≡ 200) ↔ All (λ c. run_check plain c ≡ none) checkers)
    × ((a.code ≡ 200) ⊎ (a.code ≡ 503))
    × ((n : Text) → lookup n a.deps ≡ last_state plain n (map (result_of plain) checkers) none)
handler_example = handler_lem plain order checkers covers
