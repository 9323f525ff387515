-- ===== src/Metrics/Registry/Shared.antt =====
-- Collectors that are made twice against one registry, by metrics/registry.go.
use nexgo.Base.{◌≡◌, Bool, true, List, [], ◌∷◌}
use nexgo.Metrics.Registry.{Registered, accepted, already}

-- Register as its package documents it, with the descriptor and the Go type of a collector: `Holds w c` says that the
-- registry has it. What is accepted or reported is held; what is held stays; and a collector with the
-- descriptor of one that is held is answered with that one, and nothing changes.
pub record Documented {W C D : Type 0} (register : C → W → Registered C × W) (describe : C → D)
    (Holds : W → C → Type 0) : Type 0 where
  pub accepted_law : (c : C) (w w' : W) → register c w ≡ (accepted, w') → Holds w' c
  pub already_law :
      (c d : C) (b : Bool) (w w' : W)
      → register c w ≡ (already d b, w')
      → Holds w' d × (describe d ≡ describe c)
  pub kept_law : (c d : C) (w : W) → Holds w d → Holds (register c w).1 d
  pub found_law :
      (c d : C) (w : W) → Holds w d → describe c ≡ describe d → register c w ≡ (already d true, w)

module _ {W C D : Type 0} (register : C → W → Registered C × W) (describe : C → D)
    (Holds : W → C → Type 0) (laws : Documented register describe Holds) where
  -- The registry holds these collectors, with these descriptors.
  abbrev pub AllHeld : W → List C → List C → Type 0
  AllHeld w [] [] = Unit
  AllHeld w (c ∷ cs) (d ∷ ds) = Holds w d × (describe c ≡ describe d) × AllHeld w cs ds
  AllHeld w _ _ = ⊥

  -- The same descriptors.
  abbrev pub Alike : List C → List C → Type 0
  Alike [] [] = Unit
  Alike (c ∷ cs) (d ∷ ds) = (describe c ≡ describe d) × Alike cs ds
  Alike _ _ = ⊥
