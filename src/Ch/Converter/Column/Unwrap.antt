-- ===== src/Ch/Converter/Column/Unwrap.antt =====
-- unwrapTypeModifiers of ch/converter.go takes off every modifier, in any nesting.
use nexgo.Base.{
  ℕ, zero, suc, ◌≤◌, ◌≡◌, refl, ap, ◌∙◌, Text, Bool, true, false, ◌||◌, none, List, [], ◌∷◌, ◌++◌,
  codes, cut_prefix, length, length-append, arith,
}
use nexgo.Ch.Converter.Column.{trim_paren, unwrap_loop, unwrap_type_modifiers}

pub data Modifier : Type 0 where
  low_cardinality nullable : Modifier

abbrev pub opening : Modifier → Text
opening low_cardinality = codes "LowCardinality("
opening nullable = codes "Nullable("

-- A type inside its modifiers, the outermost first.
abbrev pub wrapped : List Modifier → Text → Text
wrapped [] t = t
wrapped (m ∷ ms) t = opening m ++ (wrapped ms t ++ (b')' ∷ []))

abbrev pub has_nullable : List Modifier → Bool
has_nullable [] = false
has_nullable (low_cardinality ∷ ms) = has_nullable ms
has_nullable (nullable ∷ ms) = true

-- A type with no modifier outside.
abbrev pub IsBare : Text → Type 0
IsBare t =
    (cut_prefix (codes "LowCardinality(") t ≡ none) × (cut_prefix (codes "Nullable(") t ≡ none)

trim_paren-append : (s : Text) → trim_paren (s ++ (b')' ∷ [])) ≡ s
unfolding trim_paren
trim_paren-append [] = refl
trim_paren-append (c ∷ []) = refl
trim_paren-append (c ∷ d ∷ s) = ap (λ r. c ∷ r) (trim_paren-append (d ∷ s))

unwrap_loop-bare : (fuel : ℕ) (t : Text) (b : Bool) → IsBare t → unwrap_loop fuel t b ≡ (t, b)
unfolding unwrap_loop
unwrap_loop-bare zero t b h = refl
unwrap_loop-bare (suc fuel) t b h = rw (h.0, h.1)

or_false : (b : Bool) → b || false ≡ b
or_false true = refl
or_false false = refl

or_true : (b : Bool) → b || true ≡ true
or_true true = refl
or_true false = refl

unwrap_loop-wrapped :
    (fuel : ℕ) (ms : List Modifier) (t : Text) (b : Bool)
    → IsBare t
    → length ms ≤ fuel
    → unwrap_loop fuel (wrapped ms t) b ≡ (t, b || has_nullable ms)
unfolding unwrap_loop
unwrap_loop-wrapped fuel [] t b h l = rw (or_false b) (unwrap_loop-bare fuel t b h)
unwrap_loop-wrapped zero (m ∷ ms) t b h l = absurd (omega arith)
unwrap_loop-wrapped (suc fuel) (low_cardinality ∷ ms) t b h l =
    ap (λ s. unwrap_loop fuel s b) (trim_paren-append (wrapped ms t))
    ∙ unwrap_loop-wrapped fuel ms t b h (omega arith)
unwrap_loop-wrapped (suc fuel) (nullable ∷ ms) t b h l =
    ap (λ s. unwrap_loop fuel s true) (trim_paren-append (wrapped ms t))
    ∙ unwrap_loop-wrapped fuel ms t true h (omega arith)
    ∙ rw (or_true b)

length-wrapped : (ms : List Modifier) (t : Text) → length ms ≤ length (wrapped ms t)
length-wrapped [] t = omega arith
length-wrapped (low_cardinality ∷ ms) t =
    omega (arith, length-wrapped ms t, length-append (wrapped ms t) (b')' ∷ []))
length-wrapped (nullable ∷ ms) t =
    omega (arith, length-wrapped ms t, length-append (wrapped ms t) (b')' ∷ []))

-- For a type that begins with neither modifier, wrapped in any number of them in any order:
-- unwrapping gives the type itself, and sets the nullable flag exactly if one of the wrappers is
-- Nullable or the flag was set.
unwrap-wrapped :
    (ms : List Modifier) (t : Text) (b : Bool)
    → IsBare t
    → unwrap_type_modifiers (wrapped ms t) b ≡ (t, b || has_nullable ms)
unfolding unwrap_type_modifiers
unwrap-wrapped ms t b h = unwrap_loop-wrapped (length (wrapped ms t)) ms t b h (length-wrapped ms t)
