-- ===== src/Cron/Tests.antt =====
-- Package cron at concrete inputs: a chain whose second task panics on what the first has left it.
use nexgo.Base.{
  ℕ, suc, ◌≡◌, refl, Text, codes, Bool, true, false, Option, none, some, List, [], ◌∷◌, ◌++◌, map,
  Result, ok, err, nat_eq, list_eq,
}
use nexgo.Cron.{
  panic_recovered, Ended, returned, panicked, task_started, task_completed, task_panicked,
  chain_started, chain_aborted, Context, Task, Job, no_tasks, log, run_job, new_cron, add_tasks,
  named, set_shared, get_shared, delete_shared, apply_middlewares, apply_loop, run_tasks,
  recovery_middleware, logging_middleware,
}
use nexgo.Cron.Chain.{nested, chain_of, run_job-add_tasks}

abbrev fetch : Task ℕ ℕ
unfolding set_shared
fetch = record { name = codes "fetch"; run = λ c. (set_shared (codes "rows") 7 c, returned none) }

abbrev ended : Option ℕ → Ended
ended none = returned none
ended (some n) = panicked (codes "rows left")

abbrev store : Task ℕ ℕ
unfolding get_shared
store = record { name = codes "store"; run = λ c. (c, ended (get_shared (codes "rows") c)) }

-- A middleware of the user, which counts.
abbrev counting : Task ℕ ℕ → Task ℕ ℕ
counting next = record { name = next.name; run = λ c. next.run (record c { world = suc c.world }) }

abbrev at_start : Context ℕ ℕ
at_start = record { world = 0; shared = []; lines = [] }

abbrev job : Job ℕ ℕ
job = record {
  name = codes "c";
  tasks =
      map
        (λ t.
          apply_middlewares (named (codes "c") t)
            (recovery_middleware ∷ logging_middleware ∷ counting ∷ []))
        (fetch ∷ store ∷ store ∷ []);
}

aborted : run_job job at_start ≡ (
  record {
    world = 2;
    shared = (codes "rows", 7) ∷ [];
    lines =
        chain_started (codes "c")
        ∷ task_started (codes "c:fetch")
        ∷ task_completed (codes "c:fetch")
        ∷ task_started (codes "c:store")
        ∷ task_panicked (codes "c:store") (codes "rows left")
        ∷ chain_aborted (codes "c") (codes "c:store") (panic_recovered (codes "rows left"))
        ∷ [];
  },
  returned none,
)
unfolding run_job run_tasks apply_middlewares apply_loop recovery_middleware logging_middleware
    set_shared get_shared nexgo.Base.insert nexgo.Base.lookup
aborted = refl

nothing_to_add :
    add_tasks (λ s. true) (codes "c") (codes "@daily") [] (new_cron (counting ∷ [])) ≡ err no_tasks
unfolding add_tasks
nothing_to_add = refl

deleted :
    get_shared (codes "a") (delete_shared (codes "a") (set_shared (codes "a") 1 at_start)) ≡ none
unfolding get_shared delete_shared set_shared nexgo.Base.insert nexgo.Base.lookup
deleted = refl

run_job-add_tasks_example :
    (job : Job ℕ ℕ) × (add_tasks
        (λ s. true)
        (codes "c")
        (codes "@daily")
        (fetch ∷ store ∷ [])
        (record (new_cron (counting ∷ [])) { jobs = [] })
      ≡ ok (record (new_cron (counting ∷ [])) { jobs = [] ++ ((codes "@daily", job) ∷ []) }))
    × ((c : Context ℕ ℕ)
        → run_job job c ≡ (
          chain_of
              (codes "c")
              (map (λ t. nested (counting ∷ []) (named (codes "c") t)) (fetch ∷ store ∷ []))
              (log (chain_started (codes "c")) (record c { shared = [] })),
          returned none,
        ))
run_job-add_tasks_example =
    run_job-add_tasks (λ s. true) (counting ∷ []) [] (codes "c") (codes "@daily") fetch (store ∷ [])
      refl
