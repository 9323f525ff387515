-- ===== src/Cache/Sync/Lifecycle.antt =====
-- Start, Stop and the periodic goroutine of cache/syncable_cache.go, as events in any order. A call of
-- Start is two events, the making of its context and the end of its first synchronisation; other calls
-- may come in between. What a synchronisation answers, which is Cache/Sync, is given with the event; a
-- synchronisation by a goroutine's ticker or by a caller of Sync changes nothing here, unless the source
-- panics, which ends the goroutine. A context is known by the number of those made before it.
pub mod Contexts
pub mod Loops
pub mod Stopped
use nexgo.Base.{
  ℕ, suc, Bool, true, false, ◌||◌, Option, none, some, List, [], ◌∷◌, ◌++◌, modify, nat_beq,
  if◌then◌else◌,
}
use nexgo.Cache.Sync.{SyncError, err_sync_again}

-- A goroutine is in its loop, has left it because of its context, or was ended by a panic.
pub data Phase : Type 0 where
  looping left crashed : Phase

pub record Loop : Type 0 where
  pub context : ℕ
  pub phase : Phase

-- `current` is the context of the fields ctx and cancel, `loops` the goroutines in the order in which
-- they were started.
pub record Running : Type 0 where
  pub contexts : ℕ
  pub current : Option ℕ
  pub cancelled : List ℕ
  pub is_stopped : Bool
  pub loops : List Loop

-- Start is called; its first synchronisation ends with an error or none, or panics; Stop is called; a
-- goroutine sees that its context is done, or its source panics.
pub data Event : Type 0 where
  start_called : Event
  first_synced : Option SyncError → Event
  first_panicked : Event
  stop_called : Event
  done_seen : ℕ → Event
  source_panicked : ℕ → Event

abbrev pub is_member : ℕ → List ℕ → Bool
is_member n [] = false
is_member n (m ∷ ms) = nat_beq n m || is_member n ms

-- sc.cancel(), if it is set
abbrev pub cancel_context : Option ℕ → List ℕ → List ℕ
cancel_context none ns = ns
cancel_context (some n) ns = n ∷ ns

-- The goroutine that Start spawns has the context that the field then holds.
abbrev pub spawned : Option ℕ → List Loop
spawned none = []
spawned (some n) = record { context = n; phase = looping } ∷ []

abbrev pub crash : Loop → Loop
crash l = record l { phase = crashed }

-- The goroutine returns, if its loop still runs and its context is cancelled.
abbrev pub leave : List ℕ → Loop → Loop
leave cancelled l = elim l.phase [
  | looping ↦ if is_member l.context cancelled then record l { phase = left } else l
  | left ↦ l
  | crashed ↦ l
]

abbrev pub started : Running → Running
started r = record r { contexts = suc r.contexts; current = some r.contexts }

-- The rest of Start, and the error that it returns.
abbrev pub after_first_sync : Option SyncError → Running → Running × Option SyncError
after_first_sync none r = (record r { loops = r.loops ++ spawned r.current }, none)
after_first_sync (some e) r =
    (record r { cancelled = cancel_context r.current r.cancelled }, some (err_sync_again e))

abbrev pub stop_once : Running → Running
stop_once r =
    if r.is_stopped
    then r
    else record r { is_stopped = true; cancelled = cancel_context r.current r.cancelled }

unfoldable pub act : Event → Running → Running
act start_called r = started r
act (first_synced e) r = (after_first_sync e r).0
act first_panicked r = r
act stop_called r = stop_once r
act (done_seen i) r = record r { loops = modify (leave r.cancelled) i r.loops }
act (source_panicked i) r = record r { loops = modify crash i r.loops }

unfoldable pub run_calls : List Event → Running → Running
run_calls [] r = r
run_calls (e ∷ events) r = run_calls events (act e r)

-- What NewSyncableCache returns, before Start.
abbrev pub fresh : Running
fresh = record { contexts = 0; current = none; cancelled = []; is_stopped = false; loops = [] }
