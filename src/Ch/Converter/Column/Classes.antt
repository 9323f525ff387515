-- ===== src/Ch/Converter/Column/Classes.antt =====
-- How parseColumnType of ch/converter.go takes a type by the words in it.
use nexgo.Base.{
  ◌≡◌, refl, ap, sym, ◌∙◌, Text, Bool, true, false, ◌||◌, Option, some, [], ◌∷◌, ◌++◌, codes,
  cut_prefix, has_prefix, contains, to_upper, upper, subst, arith, map-append,
}
use nexgo.Ch.Converter.Value.{Library}
use nexgo.Ch.Converter.Column.Default.{ClickhouseType, int}
use nexgo.Ch.Converter.Column.{classify, parse_column_type, unwrap_type_modifiers}

cut_prefix-append :
    (p s t : Text) (r : Text) → cut_prefix p s ≡ some r → cut_prefix p (s ++ t) ≡ some (r ++ t)
cut_prefix-append [] s t r h = ground arith
cut_prefix-append (c ∷ p) [] t r h = cc
cut_prefix-append (c ∷ p) (d ∷ s) t r h = ground (arith, cut_prefix-append p s t r)

cut_prefix_self : (p s : Text) → cut_prefix p (p ++ s) ≡ some s
cut_prefix_self [] s = refl
cut_prefix_self (c ∷ p) s = ground (arith, cut_prefix_self p s)

contains_from : (p s : Text) → has_prefix s p ≡ true → contains s p ≡ true
contains_from p [] h = h
contains_from p (c ∷ s) h = rw h

contains-append : (p xs s : Text) → contains s p ≡ true → contains (xs ++ s) p ≡ true
contains-append p [] s h = h
contains-append p (c ∷ xs) s h = rw (contains-append p xs s h) (or_true _)
  where
    or_true : (b : Bool) → b || true ≡ true
    or_true true = refl
    or_true false = refl

contains_middle : (p xs ys : Text) → contains (xs ++ (p ++ ys)) p ≡ true
contains_middle p xs ys =
    contains-append p xs (p ++ ys)
      (contains_from p (p ++ ys) (rw (cut_prefix_self p ys, has_prefix)))

int_inside :
    (before word after : Text)
    → to_upper word ≡ codes "INT"
    → contains (to_upper (before ++ (word ++ after))) (codes "INT") ≡ true
int_inside before word after h =
    subst (λ (s : Text). contains s (codes "INT") ≡ true)
      (sym (
        map-append upper before (word ++ after)
        ∙ ap (λ s. to_upper before ++ s)
            (map-append upper word after ∙ ap (λ s. s ++ to_upper after) h)))
      (contains_middle (codes "INT") (to_upper before) (to_upper after))

-- An Enum column is taken for an integer column, and so its texts are written as numbers, whenever
-- one of its names, or any other part of its definition behind `Enum8(`, has the letters INT in it,
-- in upper or lower case.
pub enum_with_int_in_a_name :
    (L : Library) {S : Type 0} (resolve : Text → ClickhouseType → Option S)
    (name before word after default : Text)
    → to_upper word ≡ codes "INT"
    → (parse_column_type L resolve name
        (codes "Enum8(" ++ (before ++ (word ++ after)))
        default).parsed_type
      ≡ int
unfolding parse_column_type unwrap_type_modifiers classify
enum_with_int_in_a_name L resolve name before word after default h =
    rw (int_inside before word after h)
