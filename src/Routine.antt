-- ===== src/Routine.antt =====
-- Package routine: goroutines that recover from panics, those of a Runner, which Wait waits for, and
-- those of the package's own functions (routine/routine.go). A goroutine is one step, which takes the
-- world to the world; the order in which goroutines end is an argument.
pub mod Group
mod Tests
use nexgo.Base.{
  ℕ, zero, suc, ◌-◌, Text, Bool, true, false, Option, none, some, List, [], ◌∷◌, ◌++◌, nat_beq,
  if◌then◌else◌,
}

-- What the function of a goroutine comes to.
pub data Exit : Type 0 where
  finished : Exit
  panicked : Text → Exit

pub data Field : Type 0 where
  panic_field routine_field : Text → Field
  stack_field : Field

-- `is_counted` for a goroutine of the Runner, which calls Done on its group when it ends.
pub record Goroutine (W : Type 0) : Type 0 where
  pub name : Text
  pub fn : W → W × Exit
  pub is_counted : Bool

-- The counter of the Runner's group, the goroutines that run, and the lines logged.
pub record Process (W : Type 0) : Type 0 where
  pub world : W
  pub group : ℕ
  pub running : List (Goroutine W)
  pub lines : List (List Field)

abbrev pub fields : Text → Text → List Field
fields [] value = panic_field value ∷ stack_field ∷ []
fields (c ∷ name) value = routine_field (c ∷ name) ∷ panic_field value ∷ stack_field ∷ []

-- The deferred recovery: what it logs.
unfoldable pub recover_with_log : Text → Exit → List (List Field)
recover_with_log name finished = []
recover_with_log name (panicked value) = fields name value ∷ []

-- Done, of a goroutine that is counted.
abbrev pub done : Bool → ℕ → ℕ
done true n = n - 1
done false n = n

module _ {W : Type 0} where
  -- GoNamed of a Runner.
  unfoldable pub runner_go_named : Text → (W → W × Exit) → Process W → Process W
  runner_go_named name fn p = record p {
    group = suc p.group;
    running = p.running ++ (record { name = name; fn = fn; is_counted = true } ∷ []);
  }

  -- GoNamed of the package.
  unfoldable pub go_named : Text → (W → W × Exit) → Process W → Process W
  go_named name fn p = record p {
    running = p.running ++ (record { name = name; fn = fn; is_counted = false } ∷ []);
  }

  -- Go has no name, and the variants with a context pass it to the function.
  abbrev pub runner_go : (W → W × Exit) → Process W → Process W
  runner_go fn p = runner_go_named [] fn p

  abbrev pub runner_go_named_with_context :
      {C : Type 0} → C → Text → (C → W → W × Exit) → Process W → Process W
  runner_go_named_with_context ctx name fn p = runner_go_named name (fn ctx) p

  abbrev pub runner_go_with_context : {C : Type 0} → C → (C → W → W × Exit) → Process W → Process W
  runner_go_with_context ctx fn p = runner_go_named_with_context ctx [] fn p

  abbrev pub go : (W → W × Exit) → Process W → Process W
  go fn p = go_named [] fn p

  abbrev pub go_named_with_context :
      {C : Type 0} → C → Text → (C → W → W × Exit) → Process W → Process W
  go_named_with_context ctx name fn p = go_named name (fn ctx) p

  abbrev pub go_with_context : {C : Type 0} → C → (C → W → W × Exit) → Process W → Process W
  go_with_context ctx fn p = go_named [] (fn ctx) p

  -- The end of a goroutine: its function, then the recovery, then Done.
  unfoldable pub run_goroutine : Goroutine W → Process W → Process W × Text × Exit
  unfolding recover_with_log
  run_goroutine g p =
      let (w, exit) = g.fn p.world in
      (
        record p {
          world = w;
          lines = p.lines ++ recover_with_log g.name exit;
          group = done g.is_counted p.group;
        },
        g.name,
        exit,
      )

  abbrev pub in_front :
      Goroutine W
      → Option (Goroutine W × List (Goroutine W))
      → Option (Goroutine W × List (Goroutine W))
  in_front g none = none
  in_front g (some (h, rest)) = some (h, g ∷ rest)

  -- A list without its element at an index, and that element.
  abbrev pub take_out : ℕ → List (Goroutine W) → Option (Goroutine W × List (Goroutine W))
  take_out i [] = none
  take_out zero (g ∷ gs) = some (g, gs)
  take_out (suc i) (g ∷ gs) = in_front g (take_out i gs)

  abbrev pub ended :
      Option (Goroutine W × List (Goroutine W)) → Process W → Process W × List (Text × Exit)
  unfolding run_goroutine
  ended none p = (p, [])
  ended (some (g, rest)) p =
      let (p', name, exit) = run_goroutine g (record p { running = rest }) in
      (p', (name, exit) ∷ [])

  -- Wait returns when the counter is zero.
  unfoldable pub wait_returns : Process W → Bool
  wait_returns p = nat_beq p.group 0

-- What happens, in order: a goroutine is started, by the Runner or by the package, or one ends.
pub data Event (W : Type 0) : Type 0 where
  runner_goes goes : Text → (W → W × Exit) → Event W
  ends : ℕ → Event W

module _ {W : Type 0} where
  unfoldable pub step : Event W → Process W → Process W × List (Text × Exit)
  unfolding runner_go_named go_named ended
  step (runner_goes name fn) p = (runner_go_named name fn p, [])
  step (goes name fn) p = (go_named name fn p, [])
  step (ends i) p = ended (take_out i p.running) p

  -- The process after these events, and the goroutines that ended, in order.
  abbrev pub run_events : List (Event W) → Process W → Process W × List (Text × Exit)
  run_events [] p = (p, [])
  run_events (e ∷ es) p =
      let (p', out) = step e p in let (q, outs) = run_events es p' in (q, out ++ outs)
