-- ===== src/Health.antt =====
-- Package health: the checks of health/health.go, run concurrently, and the answer of its handler.
-- A check is what it comes to: an error, with its text, or none, or a panic, with the text that the
-- runtime prints of it. Deadlines are the checks' own.
pub mod Order
pub mod Status
mod Tests
use nexgo.Base.{
  ℕ, zero, suc, Text, codes, Bool, true, false, Option, none, some, List, [], ◌∷◌, ◌++◌, map,
  modify, Dict, insert, nat_eq, list_eq, if◌then◌else◌,
}

pub data Behaviour : Type 0 where
  returns : Option Text → Behaviour
  panics : Text → Behaviour

pub record Checker : Type 0 where
  pub name : Text
  pub check : Behaviour

pub record Outcome : Type 0 where
  pub name : Text
  pub ok : Bool
  pub error : Text

-- `quote` is the %q of the format.
abbrev pub recovered : (Text → Text) → Text → Behaviour → Option Text
recovered quote name (returns e) = e
recovered quote name (panics p) =
    some (codes "health: checker " ++ (quote name ++ (codes " panicked: " ++ p)))

unfoldable pub run_check : (Text → Text) → Checker → Option Text
run_check quote c = recovered quote c.name c.check

abbrev pub outcome : Text → Option Text → Outcome
outcome n none = record { name = n; ok = true; error = [] }
outcome n (some e) = record { name = n; ok = false; error = e }

abbrev pub zero_outcome : Outcome
zero_outcome = record { name = []; ok = false; error = [] }

abbrev pub nth {ℓ} : {A : Type ℓ} → ℕ → List A → Option A
nth i [] = none
nth zero (x ∷ xs) = some x
nth (suc i) (x ∷ xs) = nth i xs

module _ (quote : Text → Text) where
  -- What the goroutine of the checker `i` writes, where it stands.
  abbrev pub write : Option Checker → ℕ → List Outcome → List Outcome
  write none i results = results
  write (some c) i results = modify (λ r. outcome c.name (run_check quote c)) i results

  -- The goroutines, in the order in which they finish.
  unfoldable pub finish : List ℕ → List Checker → List Outcome → List Outcome
  unfolding run_check
  finish [] checkers results = results
  finish (i ∷ order) checkers results = finish order checkers (write (nth i checkers) i results)

  abbrev pub all_ok : List Outcome → Bool
  all_ok [] = true
  all_ok (r ∷ rs) = if r.ok then all_ok rs else false

  unfoldable pub run : List ℕ → List Checker → Bool × List Outcome
  unfolding finish
  run order checkers =
      let results = finish order checkers (map (λ c. zero_outcome) checkers) in
      (all_ok results, results)

  -- The map of the dependencies, filled in the order of the results.
  abbrev pub state_of : Outcome → Text
  state_of r = if r.ok then codes "ok" else codes "error: " ++ r.error

  unfoldable pub dependencies : List Outcome → Dict Text Text → Dict Text Text
  dependencies [] deps = deps
  dependencies (r ∷ rs) deps = dependencies rs (insert r.name (state_of r) deps)

  pub record Answer : Type 0 where
    pub code : ℕ
    pub status : Text
    pub deps : Dict Text Text

  unfoldable pub handler : List ℕ → List Checker → Answer
  unfolding run dependencies
  handler order checkers =
      let (ok, results) = run order checkers in
      record {
        code = if ok then 200 else 503;
        status = if ok then codes "ok" else codes "error";
        deps = dependencies results [];
      }
