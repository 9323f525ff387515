-- ===== src/Base/Strings.antt =====
-- The functions of Go's package strings that the sources call, over lists of bytes. Upper and lower
-- case are those of ASCII.
use Prim.Native.Nat.{ℕ, ◌-◌, ◌+◌}
use mathlib.Core.Bool.{Bool, true, false, ◌&&◌, ◌||◌}
use mathlib.Core.List.{List, [], ◌∷◌, map}
use mathlib.Core.Option.{Option, none, some}
use Prim.Native.String.{String}
use Prim.Native.Char.{code}
use nexgo.Base.Tests.{nat_beq, leb, if◌then◌else◌}
use nexgo.Base.Equality.{list_beq, nat_eq}

abbrev pub Text : Type 0
Text = List ℕ

abbrev pub codes : String → Text
codes String.[] = []
codes (String.◌∷◌ letter rest) = code letter ∷ codes rest

abbrev pub text_eq : Text → Text → Bool
text_eq s t = list_beq s t

-- What is left of `s` behind the prefix `p`, if it has that prefix.
abbrev pub cut_prefix : Text → Text → Option Text
cut_prefix [] s = some s
cut_prefix (c ∷ p) [] = none
cut_prefix (c ∷ p) (d ∷ s) = elim (nat_beq c d) [ true ↦ cut_prefix p s | false ↦ none ]

-- strings.HasPrefix(s, p) and strings.TrimPrefix(s, p)
abbrev pub has_prefix : Text → Text → Bool
has_prefix s p = elim (cut_prefix p s) [ none ↦ false | some _ ↦ true ]

abbrev pub trim_prefix : Text → Text → Text
trim_prefix s p = elim (cut_prefix p s) [ none ↦ s | some r ↦ r ]

-- strings.Contains(s, p)
abbrev pub contains : Text → Text → Bool
contains [] p = has_prefix [] p
contains (c ∷ s) p = has_prefix (c ∷ s) p || contains s p

abbrev pub upper : ℕ → ℕ
upper c = if leb b'a' c && leb c b'z' then c - 32 else c

abbrev pub lower : ℕ → ℕ
lower c = if leb b'A' c && leb c b'Z' then c + 32 else c

-- strings.ToUpper and strings.ToLower
abbrev pub to_upper : Text → Text
to_upper s = map upper s

abbrev pub to_lower : Text → Text
to_lower s = map lower s

abbrev pub cons_to : ℕ → Option Text → Option Text
cons_to c none = none
cons_to c (some s) = some (c ∷ s)
