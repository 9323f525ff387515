-- ===== src/Base/Texts.antt =====
-- Tests on texts that the configurations share, and the defaults for zero values.
use mathlib.Core.Path.{◌≡◌, refl}
use mathlib.Core.Bool.{Bool, true, false, ◌||◌}
use mathlib.Core.List.{List, [], ◌∷◌, ◌++◌}
use nexgo.Base.Tests.{if◌then◌else◌}
use nexgo.Base.Integers.{ℤ, is_zero, pos, negsuc, not_positive, is_negative}
use nexgo.Base.Strings.{Text, text_eq, to_lower}
use native.Mathlib.Omega.{arith}

-- `s == ""`
abbrev pub is_empty_text : Text → Bool
is_empty_text [] = true
is_empty_text (c ∷ s) = false

-- A field, or the default in place of its zero value.
abbrev pub or_text : Text → Text → Text
or_text [] default = default
or_text (c ∷ s) default = c ∷ s

abbrev pub or_int : ℤ → ℤ → ℤ
or_int z default = if is_zero z then default else z

-- strings.EqualFold
abbrev pub equal_fold : Text → Text → Bool
equal_fold s t = text_eq (to_lower s) (to_lower t)

-- slices.ContainsFunc with strings.EqualFold
abbrev pub fold_among : Text → List Text → Bool
fold_among s [] = false
fold_among s (t ∷ ts) = equal_fold s t || fold_among s ts

-- strings.Join
abbrev pub join : Text → List Text → Text
join sep [] = []
join sep (s ∷ []) = s
join sep (s ∷ t ∷ ts) = s ++ (sep ++ join sep (t ∷ ts))

pub or_text_twice : (s d : Text) → or_text (or_text s d) d ≡ or_text s d
or_text_twice [] [] = refl
or_text_twice [] (c ∷ d) = refl
or_text_twice (c ∷ s) d = refl

pub or_int_twice : (z d : ℤ) → or_int (or_int z d) d ≡ or_int z d
or_int_twice z d = ground arith

-- A default that is fit leaves the negative numbers as the only ones that are not.
pub not_positive-or_int :
    (z d : ℤ) → not_positive d ≡ false → not_positive (or_int z d) ≡ is_negative z
not_positive-or_int (pos n) d h = ground arith
not_positive-or_int (negsuc n) d h = refl

pub is_negative-or_int :
    (z d : ℤ) → is_negative d ≡ false → is_negative (or_int z d) ≡ is_negative z
is_negative-or_int (pos n) d h = ground arith
is_negative-or_int (negsuc n) d h = refl

pub is_empty-or_text : (s d : Text) → is_empty_text d ≡ false → is_empty_text (or_text s d) ≡ false
is_empty-or_text [] d h = h
is_empty-or_text (c ∷ s) d h = refl
