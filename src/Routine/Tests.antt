-- ===== src/Routine/Tests.antt =====
-- Package routine at concrete inputs: two goroutines of a Runner and one beside it.
use nexgo.Base.{ℕ, suc, ◌+◌, ◌≡◌, refl, codes, List, [], ◌∷◌, ◌++◌, length, nat_beq}
use nexgo.Routine.{
  Exit, finished, panicked, panic_field, stack_field, routine_field, Process, Event, runner_goes,
  goes, ends, step, run_events, wait_returns, runner_go_named, go_named, run_goroutine,
  recover_with_log,
}
use nexgo.Routine.Group.{counted, panics, wait_returns-run_events}

abbrev counts : ℕ → ℕ × Exit
counts w = (suc w, finished)

abbrev fails : ℕ → ℕ × Exit
fails w = (w, panicked (codes "boom"))

abbrev idle : Process ℕ
idle = record { world = 0; group = 0; running = []; lines = [] }

abbrev events : List (Event ℕ)
events =
    runner_goes (codes "a") fails
    ∷ goes [] fails
    ∷ runner_goes [] counts
    ∷ ends 2
    ∷ ends 1
    ∷ ends 0
    ∷ []

all_ended : (run_events events idle).0 ≡ record {
  world = 1;
  group = 0;
  running = [];
  lines =
      (panic_field (codes "boom") ∷ stack_field ∷ [])
      ∷ (routine_field (codes "a") ∷ panic_field (codes "boom") ∷ stack_field ∷ [])
      ∷ [];
}
unfolding step runner_go_named go_named run_goroutine recover_with_log
all_ended = refl

wait_returns-run_events_example :
    let (q, outs) = run_events events idle in
    (q.group ≡ counted q.running)
    × (wait_returns q ≡ nat_beq (counted q.running) 0)
    × (q.lines ≡ [] ++ panics outs)
    × (length q.running + length outs ≡ 0 + 3)
wait_returns-run_events_example = wait_returns-run_events events idle refl
