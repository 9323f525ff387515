-- ===== src/Ch/Converter/Column/Default.antt =====
-- The default expressions of columns in ch/converter.go: parseFunctionCall and
-- parseDefaultValueForType.
use nexgo.Base.{
  ℕ, Text, Bool, true, false, ◌||◌, ◌&&◌, Option, none, some, List, [], ◌∷◌, codes, cons_to,
  text_eq, to_lower, parse_int, leb, nat_beq, if◌then◌else◌,
}
use mathlib.Core.List.{reverse}
use nexgo.Ch.Converter.Value.{Library, Value, DefaultFunc, default_func}
use nexgo.Ch.Converter.Scalar.{int_or_zero, float_or_zero}
use nexgo.Ch.Converter.Other.{decimal_or_zero}

pub data ClickhouseType : Type 0 where
  unknown string int float decimal bool date_time enum ip date map array : ClickhouseType

-- The white space that strings.TrimSpace drops, and `\s` of a regular expression
abbrev is_trimmed : ℕ → Bool
is_trimmed c = (leb 9 c && leb c 13) || nat_beq c 32

abbrev is_blank : ℕ → Bool
is_blank c = is_trimmed c && (if nat_beq c 11 then false else true)

-- `\w`
abbrev is_word : ℕ → Bool
is_word c =
    (leb b'a' c && leb c b'z')
    || (leb b'A' c && leb c b'Z')
    || (leb b'0' c && leb c b'9')
    || nat_beq c b'_'

unfoldable pub drop_while : (ℕ → Bool) → Text → Text
drop_while p [] = []
drop_while p (c ∷ s) = if p c then drop_while p s else c ∷ s

unfoldable pub take_while : (ℕ → Bool) → Text → Text
take_while p [] = []
take_while p (c ∷ s) = if p c then c ∷ take_while p s else []

unfoldable pub trim_space : Text → Text
unfolding drop_while
trim_space s = reverse (drop_while is_trimmed (reverse (drop_while is_trimmed s)))

-- `([^)]*)\)$`: what stands before the closing parenthesis, if that ends the text
unfoldable pub closed_args : Text → Option Text
closed_args [] = none
closed_args (c ∷ []) = if nat_beq c b')' then some [] else none
closed_args (c ∷ d ∷ s) = if nat_beq c b')' then none else cons_to c (closed_args (d ∷ s))

abbrev onto_first : ℕ → List Text → List Text
onto_first c [] = (c ∷ []) ∷ []
onto_first c (t ∷ ts) = (c ∷ t) ∷ ts

-- strings.Split(s, ",")
unfoldable pub split_comma : Text → List Text
split_comma [] = [] ∷ []
split_comma (c ∷ s) =
    let rest = split_comma s in if nat_beq c b',' then [] ∷ rest else onto_first c rest

abbrev is_supported : Text → Bool
is_supported f =
    text_eq f (codes "now")
    || text_eq f (codes "now64")
    || text_eq f (codes "today")
    || text_eq f (codes "yesterday")
    || text_eq f (codes "generateuuidv4")

abbrev split_args : Text → List Text
split_args [] = []
split_args (c ∷ s) = mathlib.Core.List.map trim_space (split_comma (c ∷ s))

abbrev supported_call : Text → Option Text → Option DefaultFunc
supported_call f none = none
supported_call f (some args) =
    if is_supported f then some (record { name = f; args = split_args (trim_space args) }) else none

-- The part of the call behind its name.
abbrev args_of : Text → Option Text
args_of [] = none
args_of (c ∷ s) = if nat_beq c b'(' then closed_args s else none

-- `none` is the nil pointer.
unfoldable pub parse_function_call : Text → Option DefaultFunc
unfolding trim_space take_while drop_while closed_args split_comma
parse_function_call value = elim (take_while is_word (trim_space value)) [
  | [] ↦ none
  | c ∷ s ↦
      supported_call (to_lower (c ∷ s))
        (args_of (drop_while is_blank (drop_while is_word (trim_space value))))
]

abbrev ends_quoted : Text → Bool
ends_quoted [] = false
ends_quoted (c ∷ []) = nat_beq c 39
ends_quoted (c ∷ d ∷ s) = ends_quoted (d ∷ s)

-- strings.HasPrefix(s, "'") && strings.HasSuffix(s, "'")
unfoldable pub is_quoted : Text → Bool
is_quoted [] = false
is_quoted (c ∷ s) = nat_beq c 39 && ends_quoted (c ∷ s)

-- strings.Trim(s, "'")
unfoldable pub trim_quotes : Text → Text
unfolding drop_while
trim_quotes s =
    reverse (drop_while (λ c. nat_beq c 39) (reverse (drop_while (λ c. nat_beq c 39) s)))

module _ (L : Library) where
  -- The switch on the type, for a default that is neither a call nor quoted; the cases that test
  -- for quotes again return the text there.
  unfoldable pub default_by_type : Text → ClickhouseType → Value L
  default_by_type d int = Value.int64 (int_or_zero (parse_int d))
  default_by_type d float = Value.float64 (float_or_zero L (L.parse_float d))
  default_by_type d decimal = Value.decimal (decimal_or_zero L (L.parse_decimal d))
  default_by_type d bool = Value.bool (text_eq d (codes "true") || text_eq d (codes "1"))
  default_by_type d _ = Value.string d

  unfoldable pub parse_default_value_for_type : Text → ClickhouseType → Value L
  unfolding parse_function_call is_quoted trim_quotes default_by_type
  parse_default_value_for_type d k = elim (parse_function_call d) [
    | some f ↦ default_func f
    | none ↦ if is_quoted d then Value.string (trim_quotes d) else default_by_type d k
  ]
