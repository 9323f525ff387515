-- ===== src/Cron/Chain.antt =====
-- What a chain of tasks of package cron does, and that it never panics.
use nexgo.Base.{
  ℕ, zero, suc, ◌≡◌, refl, ap, ◌∙◌, Text, Bool, true, none, some, List, [], ◌∷◌, ◌++◌, map, length,
  ok,
}
use nexgo.Cron.{
  panic_recovered, Ended, returned, panicked, task_started, task_completed, task_failed,
  task_panicked, chain_started, chain_completed, chain_aborted, Context, Task, Job, log,
  middleware_at, apply_loop, apply_middlewares, recovered, recovery_middleware, logged,
  logging_middleware, after_task, run_tasks, run_job, named, new_cron, add_tasks,
}

module _ {W V : Type 0} where
  -- The middlewares around a task, the first one outermost.
  abbrev pub nested : List (Task W V → Task W V) → Task W V → Task W V
  nested [] t = t
  nested (mw ∷ mws) t = mw (nested mws t)

  apply_loop-first :
      (i : ℕ) (mw : Task W V → Task W V) (mws : List (Task W V → Task W V)) (t : Task W V)
      → apply_loop (suc i) (mw ∷ mws) t ≡ mw (apply_loop i mws t)
  unfolding apply_loop
  apply_loop-first zero mw mws t = refl
  apply_loop-first (suc i) mw mws t = apply_loop-first i mw mws (middleware_at i mws t)

  apply_middlewares-nested :
      (t : Task W V) (mws : List (Task W V → Task W V)) → apply_middlewares t mws ≡ nested mws t
  unfolding apply_middlewares
  apply_middlewares-nested t [] = unfold apply_loop in refl
  apply_middlewares-nested t (mw ∷ mws) =
      apply_loop-first (length mws) mw mws t ∙ ap mw (apply_middlewares-nested t mws)

  -- The chain as its log tells it: each task starts, and completes, fails or panics; the first that
  -- does not complete aborts the chain.
  abbrev pub told : Text → Text → (Context W V → Context W V) → Context W V × Ended → Context W V
  told chain name rest (c, returned none) = rest (log (task_completed name) c)
  told chain name rest (c, returned (some e)) =
      log (chain_aborted chain name e) (log (task_failed name e) c)
  told chain name rest (c, panicked p) =
      log (chain_aborted chain name (panic_recovered p)) (log (task_panicked name p) c)

  abbrev pub chain_of : Text → List (Task W V) → Context W V → Context W V
  chain_of chain [] c = log (chain_completed chain) c
  chain_of chain (t ∷ ts) c =
      told chain t.name (chain_of chain ts) (t.run (log (task_started t.name) c))

  after_task-recovered :
      (chain name : Text) (rest : Context W V → Context W V × Ended)
      (then_rest : Context W V → Context W V) (x : Context W V × Ended)
      → ((c : Context W V) → rest c ≡ (then_rest c, returned none))
      → after_task chain name rest (recovered name (logged name x))
        ≡ (told chain name then_rest x, returned none)
  after_task-recovered chain name rest then_rest (c, returned none) h =
      h (log (task_completed name) c)
  after_task-recovered chain name rest then_rest (c, returned (some e)) h = refl
  after_task-recovered chain name rest then_rest (c, panicked p) h = refl

  -- A task as NewCron's manager wraps it.
  abbrev wrapped : List (Task W V → Task W V) → Text → Task W V → Task W V
  wrapped mws chain t = recovery_middleware (logging_middleware (nested mws (named chain t)))

  run_tasks-chain_of :
      (chain : Text) (mws : List (Task W V → Task W V)) (ts : List (Task W V)) (c : Context W V)
      → run_tasks chain (map (wrapped mws chain) ts) c
        ≡ (chain_of chain (map (λ t. nested mws (named chain t)) ts) c, returned none)
  unfolding run_tasks recovery_middleware logging_middleware
  run_tasks-chain_of chain mws [] c = refl
  run_tasks-chain_of chain mws (t ∷ ts) c =
      let inner = nested mws (named chain t) in
      after_task-recovered chain inner.name (run_tasks chain (map (wrapped mws chain) ts))
        (chain_of chain (map (λ t. nested mws (named chain t)) ts))
        (inner.run (log (task_started inner.name) c)) (run_tasks-chain_of chain mws ts)

  map-ext :
      (f g : Task W V → Task W V) (ts : List (Task W V))
      → ((t : Task W V) → f t ≡ g t)
      → map f ts ≡ map g ts
  map-ext f g [] h = refl
  map-ext f g (t ∷ ts) h = rw (h t, map-ext f g ts h) refl

  -- With the manager of NewCron, whatever further middlewares it has: tasks under a spec that the
  -- scheduler accepts become a job behind the earlier ones. Its run starts with no shared data, runs
  -- the tasks in order, each inside the further middlewares, the first of them outermost, and stops at
  -- the first that fails or panics. It logs just that, and returns without a panic.
  pub run_job-add_tasks :
      (accepts : Text → Bool) (mws : List (Task W V → Task W V)) (jobs : List (Text × Job W V))
      (name spec : Text) (t : Task W V) (ts : List (Task W V))
      → accepts spec ≡ true
      → (job : Job W V) × (add_tasks accepts name spec
            (t ∷ ts)
            (record (new_cron mws) { jobs = jobs })
          ≡ ok (record (new_cron mws) { jobs = jobs ++ ((spec, job) ∷ []) }))
        × ((c : Context W V)
            → run_job job c ≡ (
              chain_of name
                  (map (λ t. nested mws (named name t)) (t ∷ ts))
                  (log (chain_started name) (record c { shared = [] })),
              returned none,
            ))
  unfolding add_tasks new_cron run_job
  run_job-add_tasks accepts mws jobs name spec t ts h =
      let all = recovery_middleware ∷ logging_middleware ∷ mws in
      let job : Job W V = record {
        name = name;
        tasks = map (λ t. apply_middlewares (named name t) all) (t ∷ ts);
      } in
      (
        job,
        rw h refl,
        λ c.
            ap (λ ts. run_tasks name ts (log (chain_started name) (record c { shared = [] })))
              (map-ext (λ t. apply_middlewares (named name t) all) (wrapped mws name) (t ∷ ts)
                (λ t. apply_middlewares-nested (named name t) all))
            ∙ run_tasks-chain_of name mws (t ∷ ts)
                (log (chain_started name) (record c { shared = [] })),
      )
