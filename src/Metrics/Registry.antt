-- ===== src/Metrics/Registry.antt =====
-- RegisterOrExisting of metrics/registry.go, the making of the collectors of metrics/middleware.go and
-- metrics/chmetrics/chmetrics.go, NewRegistry and RegisterRoute. The registry of Prometheus is a
-- parameter over its state `W`, and `C` the collectors.
pub mod Shared
mod Tests
use nexgo.Base.{Text, Bool, true, false, Option, none, some, List, [], ◌∷◌, codes, if◌then◌else◌}

-- What Register returns: nil; an AlreadyRegisteredError, with the existing collector and whether it is
-- of the same Go type; or another error.
pub data Registered (C : Type 0) : Type 0 where
  accepted refused : Registered C
  already : C → Bool → Registered C

pub record Options : Type 0 where
  pub enable_go_collector : Bool
  pub enable_process_collector : Bool

unfoldable pub default_options : Options
default_options = record { enable_go_collector = true; enable_process_collector = true }

-- The path at which RegisterRoute mounts the handler.
unfoldable pub mount_path : Text → Text
mount_path [] = codes "/metrics"
mount_path (c ∷ s) = c ∷ s

module _ {W C : Type 0} (register : C → W → Registered C × W) where
  -- The collector to use; `none` is a panic.
  abbrev pub collector_of : C → Registered C × W → Option C × W
  collector_of c (accepted, w) = (some c, w)
  collector_of c (already d true, w) = (some d, w)
  collector_of c (already d false, w) = (none, w)
  collector_of c (refused, w) = (none, w)

  unfoldable pub register_or_existing : C → W → Option C × W
  register_or_existing c w = collector_of c (register c w)

  abbrev pub in_front : C → Option (List C) × W → Option (List C) × W
  in_front c (none, w) = (none, w)
  in_front c (some ds, w) = (some (c ∷ ds), w)

  abbrev pub then_rest : (W → Option (List C) × W) → Option C × W → Option (List C) × W
  then_rest rest (none, w) = (none, w)
  then_rest rest (some c, w) = in_front c (rest w)

  -- The collectors that newHTTPMetrics and New make, in the order of their fields.
  unfoldable pub register_all : List C → W → Option (List C) × W
  unfolding register_or_existing
  register_all [] w = (some [], w)
  register_all (c ∷ cs) w = then_rest (register_all cs) (register_or_existing c w)

  -- MustRegister of one collector, which panics on every error.
  abbrev pub must_register : C → Option W → Option W
  must_register c none = none
  must_register c (some w) = elim (register c w).0 [ accepted ↦ some (register c w).1 | _ ↦ none ]

  -- NewRegistry on a fresh registry: the collectors of the Go runtime and of the process.
  unfoldable pub new_registry : C → C → Options → W → Option W
  new_registry go_collector process_collector o w =
      let first = if o.enable_go_collector then must_register go_collector (some w) else some w in
      if o.enable_process_collector then must_register process_collector first else first
