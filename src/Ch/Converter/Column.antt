-- ===== src/Ch/Converter/Column.antt =====
-- The columns of ch/converter.go: parseColumnType and what it calls.
pub mod Default
pub mod Unwrap
pub mod Classes
use nexgo.Base.{
  ℕ, zero, suc, Text, Bool, true, false, ◌||◌, Option, none, some, List, [], ◌∷◌, ◌++◌, codes,
  cons_to, text_eq, cut_prefix, has_prefix, contains, to_upper, nat_beq, length, if◌then◌else◌,
}
use nexgo.Ch.Converter.Value.{Library, Value}
use Default.{
  ClickhouseType, unknown, string, int, float, decimal, bool, date_time, enum, ip, date, map, array,
  parse_default_value_for_type,
}

-- `S` is the type that the driver resolves for a container column.
pub record TableColumn (L : Library) (S : Type 0) : Type 0 where
  pub name : Text
  pub original_type : Text
  pub base_type : Text
  pub parsed_type : ClickhouseType
  pub is_nullable : Bool
  pub default_value : Option (Value L)
  pub enum_first_value : Text
  pub container_scan_type : Option S

-- strings.TrimSuffix(s, ")")
unfoldable pub trim_paren : Text → Text
trim_paren [] = []
trim_paren (c ∷ []) = if nat_beq c b')' then [] else c ∷ []
trim_paren (c ∷ d ∷ s) = c ∷ trim_paren (d ∷ s)

-- The loop of unwrapTypeModifiers, with fuel: the unwrapped type, and *nullable.
unfoldable pub unwrap_loop : ℕ → Text → Bool → Text × Bool
unfolding trim_paren
unwrap_loop zero s nullable = (s, nullable)
unwrap_loop (suc fuel) s nullable = elim (cut_prefix (codes "LowCardinality(") s) [
  | some r ↦ unwrap_loop fuel (trim_paren r) nullable
  | none ↦ elim (cut_prefix (codes "Nullable(") s) [
    | some r ↦ unwrap_loop fuel (trim_paren r) true
    | none ↦ (s, nullable)
  ]
]

-- Each round drops a prefix, so that the length of the text is fuel enough.
unfoldable pub unwrap_type_modifiers : Text → Bool → Text × Bool
unfolding unwrap_loop
unwrap_type_modifiers s nullable = unwrap_loop (length s) s nullable

-- `\s` of a regular expression
abbrev pub is_space : ℕ → Bool
is_space c = nat_beq c 32 || nat_beq c 9 || nat_beq c 10 || nat_beq c 12 || nat_beq c 13

abbrev pub skip_spaces : Text → Text
skip_spaces [] = []
skip_spaces (c ∷ s) = if is_space c then skip_spaces s else c ∷ s

-- `([^']+)'`: what stands before the next quote, if it is not empty
unfoldable pub quoted : Text → Option Text
quoted [] = none
quoted (c ∷ s) = if nat_beq c 39 then some [] else cons_to c (quoted s)

abbrev non_empty : Option Text → Option Text
non_empty (some (c ∷ s)) = some (c ∷ s)
non_empty _ = none

abbrev value_after_spaces : Text → Option Text
unfolding quoted
value_after_spaces [] = none
value_after_spaces (q ∷ s) = if nat_beq q 39 then non_empty (quoted s) else none

-- `\(\s*'([^']+)'` at the start of a text
unfoldable pub enum_value_here : Text → Option Text
unfolding quoted
enum_value_here [] = none
enum_value_here (c ∷ s) = if nat_beq c b'(' then value_after_spaces (skip_spaces s) else none

-- The leftmost match.
unfoldable pub parse_first_enum_value : Text → Text
unfolding enum_value_here
parse_first_enum_value [] = []
parse_first_enum_value (c ∷ s) =
    let rest = parse_first_enum_value s in
    elim (enum_value_here (c ∷ s)) [ some v ↦ v | none ↦ rest ]

-- The switch of parseColumnType on the upper-case base type.
unfoldable pub classify : Text → ClickhouseType
classify u =
    if has_prefix u (codes "MAP(")
    then map
    else if has_prefix u (codes "ARRAY(")
    then array
    else if contains u (codes "INT")
    then int
    else if contains u (codes "STRING") || contains u (codes "FIXEDSTRING")
    then string
    else if contains u (codes "FLOAT")
    then float
    else if contains u (codes "BOOL")
    then bool
    else if contains u (codes "DATETIME")
    then date_time
    else if contains u (codes "DATE")
    then date
    else if contains u (codes "DECIMAL")
    then decimal
    else if contains u (codes "ENUM")
    then enum
    else if text_eq u (codes "IPV4") || text_eq u (codes "IPV6")
    then ip
    else unknown

module _ (L : Library) {S : Type 0} (resolve : Text → ClickhouseType → Option S) where
  -- `resolve` is resolveContainerScanType, which asks the driver.
  abbrev pub scan_type_for : ClickhouseType → Text → Option S
  scan_type_for map base = resolve base map
  scan_type_for array base = resolve base array
  scan_type_for _ base = none

  abbrev pub first_value_for : ClickhouseType → Text → Text
  first_value_for enum base = parse_first_enum_value base
  first_value_for _ base = []

  abbrev pub default_for : ClickhouseType → Text → Option (Value L)
  default_for k [] = none
  default_for k (c ∷ s) = some (parse_default_value_for_type L (c ∷ s) k)

  unfoldable pub parse_column_type : Text → Text → Text → TableColumn L S
  unfolding unwrap_type_modifiers classify parse_first_enum_value
  parse_column_type name col_type default =
      let (base, nullable) = unwrap_type_modifiers col_type false in
      let k = classify (to_upper base) in
      record {
        name = name;
        original_type = col_type;
        base_type = base;
        parsed_type = k;
        is_nullable = nullable;
        default_value = default_for k default;
        enum_first_value = first_value_for k base;
        container_scan_type = scan_type_for k base;
      }
