-- ===== src/Metrics/Registry/Tests.antt =====
-- The theorem about metrics/registry.go with a registry that knows collectors by their names.
use nexgo.Base.{ℕ, ◌≡◌, true, false, Option, none, some, List, [], ◌∷◌, nat_beq}
use nexgo.Metrics.Registry.{Registered, accepted, already}

record Named : Type 0 where
  pub name : ℕ
  pub handle : ℕ

abbrev find : ℕ → List Named → Option Named
find n [] = none
find n (c ∷ cs) = elim (nat_beq c.name n) [ true ↦ some c | false ↦ find n cs ]

abbrev answer : Named → List Named → Option Named → Registered Named × List Named
answer c w none = (accepted, c ∷ w)
answer c w (some d) = (already d true, w)

abbrev register : Named → List Named → Registered Named × List Named
register c w = answer c w (find c.name w)

abbrev HoldsNamed : List Named → Named → Type 0
HoldsNamed w d = find d.name w ≡ some d

abbrev collector : ℕ → ℕ → Named
collector n h = record { name = n; handle = h }
