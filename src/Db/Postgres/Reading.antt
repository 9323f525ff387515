-- ===== src/Db/Postgres/Reading.antt =====
-- The connection string of db/postgres_config.go read back. The readers follow the documented grammar
-- of PostgreSQL's connection strings: settings `key=value` parted by white space, where a value in
-- quotes or a bare one may hold a character behind a backslash, and a bare one ends at white space.
use nexgo.Base.{
  ℕ, zero, suc, ◌≡◌, Text, Bool, true, false, ◌||◌, ◌&&◌, Option, none, some, List, [], ◌∷◌,
  nat_beq, leb, if◌then◌else◌,
}

-- White space but the space itself: tab, newline, vertical tab, form feed, carriage return.
abbrev pub is_break : ℕ → Bool
is_break c = leb 9 c && leb c 13

abbrev pub has_break : Text → Bool
has_break [] = false
has_break (c ∷ s) = is_break c || has_break s

abbrev pub is_white : ℕ → Bool
is_white c = nat_beq c b' ' || is_break c

abbrev pub push : ℕ → Option (Text × Text) → Option (Text × Text)
push c none = none
push c (some (v, rest)) = some (c ∷ v, rest)

-- A bare value and what follows it; the flag says that a backslash stands before.
unfoldable pub read_bare : Bool → Text → Option (Text × Text)
read_bare escaped [] = some ([], [])
read_bare true (c ∷ s) = push c (read_bare false s)
read_bare false (c ∷ s) =
    let plain = push c (read_bare false s) in
    let behind = read_bare true s in
    if is_white c then some ([], c ∷ s) else if nat_beq c 92 then behind else plain

-- A value in quotes, behind the first quote; `none` if it never ends.
unfoldable pub read_quoted : Bool → Text → Option (Text × Text)
read_quoted escaped [] = none
read_quoted true (c ∷ s) = push c (read_quoted false s)
read_quoted false (c ∷ s) =
    let plain = push c (read_quoted false s) in
    let behind = read_quoted true s in
    if nat_beq c 39 then some ([], s) else if nat_beq c 92 then behind else plain

unfoldable pub read_value : Text → Option (Text × Text)
unfolding read_bare read_quoted
read_value [] = some ([], [])
read_value (c ∷ s) = if nat_beq c 39 then read_quoted false s else read_bare false (c ∷ s)

-- A key and what follows its equals sign.
unfoldable pub read_key : Text → Option (Text × Text)
read_key [] = none
read_key (c ∷ s) = let rest = push c (read_key s) in if nat_beq c b'=' then some ([], s) else rest

abbrev pub skip_white : Text → Text
skip_white [] = []
skip_white (c ∷ s) = let rest = skip_white s in if is_white c then rest else c ∷ s

abbrev pub prepend : Text × Text → Option (List (Text × Text)) → Option (List (Text × Text))
prepend kv none = none
prepend kv (some kvs) = some (kv ∷ kvs)

abbrev pub with_value :
    (Text → Option (List (Text × Text))) → Text → Option (Text × Text) → Option (List (Text × Text))
with_value more key none = none
with_value more key (some (value, rest)) = prepend (key, value) (more rest)

abbrev pub with_key :
    (Text → Option (List (Text × Text))) → Option (Text × Text) → Option (List (Text × Text))
with_key more none = none
with_key more (some (key, rest)) = with_value more key (read_value rest)

abbrev pub setting : (Text → Option (List (Text × Text))) → Text → Option (List (Text × Text))
setting more [] = some []
setting more (c ∷ s) = with_key more (read_key (c ∷ s))

-- The settings of a string, one for each unit of fuel.
unfoldable pub read_settings : ℕ → Text → Option (List (Text × Text))
unfolding read_key read_value
read_settings zero s = none
read_settings (suc fuel) s = setting (read_settings fuel) (skip_white s)

-- What may follow a value.
abbrev pub AtEnd : Text → Type 0
AtEnd [] = Unit {0}
AtEnd (c ∷ s) = c ≡ b' '
