-- ===== src/Logger/Tests.antt =====
-- The theorem about logger/global.go at a concrete input, with loggers that are numbers.
use nexgo.Base.{
  ℕ, suc, ◌≤◌, ◌≡◌, refl, true, Option, none, some, List, [], ◌∷◌, ◌++◌, All, is_some, Result, ok,
}
use nexgo.Logger.{Config, Global, Step, set_global, look, initialize, read, run, new_logger}
use nexgo.Logger.Given.{IsGiven, unset, run-unset}

-- Two calls that find no logger, and one between; the default logger is 0.
two_calls :
    (run {L = ℕ} 0
      (look ∷ look ∷ initialize ∷ read ∷ set_global (some 4) ∷ initialize ∷ read ∷ [])
      (unset 0)).answers
    ≡ some 0 ∷ some 4 ∷ []
unfolding run
two_calls = refl

abbrev build_six : Config → Result ℕ ℕ
build_six c = ok 6

new_with_defaults : (new_logger 0 build_six suc none (unset 0)).1.global_logger ≡ some 7
unfolding new_logger
new_with_defaults = refl

run-unset_example :
    ((xs : List (Step ℕ))
      → All (IsGiven 0) xs
      → All (λ (o : Option ℕ). is_some o ≡ true) (run 0 xs (unset 0)).answers
        × ((run 0 xs (unset 0)).built ≤ 1))
    × ((g : Global ℕ)
        → g.init_done ≡ true
        → (run 0 (set_global none ∷ look ∷ initialize ∷ read ∷ []) g).answers
          ≡ g.answers ++ (none ∷ []))
run-unset_example = run-unset 0
