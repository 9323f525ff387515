-- ===== src/Cron.antt =====
-- Package cron: the manager with its chains of tasks (cron/manager.go, cron/cron.go), the middlewares
-- (cron/middleware.go) and the data that tasks of a chain share (cron/shared_data.go). What a task does
-- is a parameter: it takes a context to a context, and returns or panics. Log lines are kept in the
-- context, without durations and stacks. The scheduler of the library decides when a job runs, and
-- which specs it accepts.
pub mod Chain
mod Tests
use nexgo.Base.{
  ℕ, zero, suc, Text, codes, Bool, true, false, Option, none, some, List, [], ◌∷◌, ◌++◌, map,
  length, Dict, lookup, insert, Result, ok, err, keep, not, text_eq, if◌then◌else◌, list_eq, nat_eq,
}

-- An error of a task, or the one that a recovered panic is turned into.
pub data TaskError : Type 0 where
  failed panic_recovered : Text → TaskError

pub data Ended : Type 0 where
  returned : Option TaskError → Ended
  panicked : Text → Ended

pub data Line : Type 0 where
  task_started task_completed : Text → Line
  task_failed : Text → TaskError → Line
  task_panicked : Text → Text → Line
  chain_started chain_completed : Text → Line
  chain_aborted : Text → Text → TaskError → Line

-- The state of the world, SharedData, and what was logged.
pub record Context (W V : Type 0) : Type 0 where
  pub world : W
  pub shared : Dict Text V
  pub lines : List Line

pub record Task (W V : Type 0) : Type 0 where
  pub name : Text
  pub run : Context W V → Context W V × Ended

pub record Job (W V : Type 0) : Type 0 where
  pub name : Text
  pub tasks : List (Task W V)

-- cronManager, with the jobs that its scheduler has, by their specs.
pub record Manager (W V : Type 0) : Type 0 where
  pub middlewares : List (Task W V → Task W V)
  pub jobs : List (Text × Job W V)

pub data CronError : Type 0 where
  no_tasks add_failed : CronError

module _ {W V : Type 0} where
  abbrev pub log : Line → Context W V → Context W V
  log line c = record c { lines = c.lines ++ (line ∷ []) }

  -- Set, Get and Delete of SharedData.
  unfoldable pub set_shared : Text → V → Context W V → Context W V
  set_shared key value c = record c { shared = insert key value c.shared }

  unfoldable pub get_shared : Text → Context W V → Option V
  get_shared key c = lookup key c.shared

  unfoldable pub delete_shared : Text → Context W V → Context W V
  delete_shared key c = record c { shared = keep (λ e. not (text_eq e.0 key)) c.shared }

  -- The middleware at an index; there is none out of range.
  abbrev pub middleware_at : ℕ → List (Task W V → Task W V) → Task W V → Task W V
  middleware_at i [] t = t
  middleware_at zero (mw ∷ mws) t = mw t
  middleware_at (suc i) (mw ∷ mws) t = middleware_at i mws t

  -- The loop from the last index down to 0, with so many left.
  unfoldable pub apply_loop : ℕ → List (Task W V → Task W V) → Task W V → Task W V
  apply_loop zero mws t = t
  apply_loop (suc i) mws t = apply_loop i mws (middleware_at i mws t)

  unfoldable pub apply_middlewares : Task W V → List (Task W V → Task W V) → Task W V
  unfolding apply_loop
  apply_middlewares t mws = apply_loop (length mws) mws t

  abbrev pub recovered : Text → Context W V × Ended → Context W V × Ended
  recovered name (c, returned e) = (c, returned e)
  recovered name (c, panicked p) =
      (log (task_panicked name p) c, returned (some (panic_recovered p)))

  unfoldable pub recovery_middleware : Task W V → Task W V
  recovery_middleware next = record {
    name = next.name;
    run = λ c. recovered next.name (next.run c);
  }

  abbrev pub logged : Text → Context W V × Ended → Context W V × Ended
  logged name (c, returned none) = (log (task_completed name) c, returned none)
  logged name (c, returned (some e)) = (log (task_failed name e) c, returned (some e))
  logged name (c, panicked p) = (c, panicked p)

  unfoldable pub logging_middleware : Task W V → Task W V
  logging_middleware next = record {
    name = next.name;
    run = λ c. logged next.name (next.run (log (task_started next.name) c));
  }

  -- What a task's end does to the rest of its chain.
  abbrev pub after_task :
      Text → Text → (Context W V → Context W V × Ended) → Context W V × Ended → Context W V × Ended
  after_task chain name rest (c, returned none) = rest c
  after_task chain name rest (c, returned (some e)) =
      (log (chain_aborted chain name e) c, returned none)
  after_task chain name rest (c, panicked p) = (c, panicked p)

  unfoldable pub run_tasks : Text → List (Task W V) → Context W V → Context W V × Ended
  run_tasks chain [] c = (log (chain_completed chain) c, returned none)
  run_tasks chain (t ∷ ts) c = after_task chain t.name (run_tasks chain ts) (t.run c)

  -- chainJob.Run: a panic that no task recovers from goes through to the scheduler.
  unfoldable pub run_job : Job W V → Context W V → Context W V × Ended
  unfolding run_tasks
  run_job j c = run_tasks j.name j.tasks (log (chain_started j.name) (record c { shared = [] }))

  -- The task under the name of its chain.
  abbrev pub named : Text → Task W V → Task W V
  named chain t = record { name = chain ++ (b':' ∷ t.name); run = t.run }

  -- NewCron
  unfoldable pub new_cron : List (Task W V → Task W V) → Manager W V
  unfolding recovery_middleware logging_middleware
  new_cron mws = record { middlewares = recovery_middleware ∷ logging_middleware ∷ mws; jobs = [] }

  module _ (accepts : Text → Bool) where
    abbrev pub added : Bool → Text → Job W V → Manager W V → Result CronError (Manager W V)
    added true spec job m = ok (record m { jobs = m.jobs ++ ((spec, job) ∷ []) })
    added false spec job m = err add_failed

    unfoldable pub add_tasks :
        Text → Text → List (Task W V) → Manager W V → Result CronError (Manager W V)
    unfolding apply_middlewares
    add_tasks name spec [] m = err no_tasks
    add_tasks name spec (t ∷ ts) m =
        added (accepts spec) spec
          (record {
            name = name;
            tasks = map (λ t. apply_middlewares (named name t) m.middlewares) (t ∷ ts);
          })
          m
