-- ===== src/Db/Postgres/RoundTrip.antt =====
-- What the connection string of db/postgres_config.go says is what the configuration holds.
use nexgo.Base.{
  ℕ, zero, suc, ◌<◌, ◌≡◌, refl, ap, sym, ◌∙◌, Text, Bool, true, false, not, ◌&&◌, Option, some,
  List, [], ◌∷◌, ◌++◌, append_assoc, append-nil, nat_beq, arith, length, All, Bool-cases, inl, inr,
  map, IsNumeral, are_numeral_codes,
}
use nexgo.Base.Texts.{join}
use nexgo.Db.Postgres.{has_special, replace, pg_escape, pair}
use nexgo.Db.Postgres.Reading.{
  has_break, is_white, read_bare, read_quoted, read_value, read_key, skip_white, prepend,
  with_value, with_key, setting, read_settings, AtEnd,
}

read_quoted-replace :
    (v rest : Text) → read_quoted false (replace v ++ (39 ∷ rest)) ≡ some (v, rest)
unfolding read_quoted
read_quoted-replace [] rest = refl
read_quoted-replace (c ∷ v) rest = ground (arith, read_quoted-replace v rest)

read_bare-plain :
    (v rest : Text)
    → has_special v ≡ false
    → has_break v ≡ false
    → AtEnd rest
    → read_bare false (v ++ rest) ≡ some (v, rest)
unfolding read_bare
read_bare-plain [] [] s b e = refl
read_bare-plain [] (c ∷ rest) s b e = ground arith
read_bare-plain (c ∷ v) rest s b e = ground (arith, read_bare-plain v rest)

-- `Reads p v`: the printed `p` is read as the value `v`, whatever may follow it.
abbrev pub Reads : Text → Text → Type 0
Reads p v = (rest : Text) → AtEnd rest → read_value (p ++ rest) ≡ some (v, rest)

read_value-plain :
    (c : ℕ) (v : Text)
    → has_special (c ∷ v) ≡ false
    → has_break (c ∷ v) ≡ false
    → Reads (c ∷ v) (c ∷ v)
unfolding read_value
read_value-plain c v s b rest e = ground (arith, read_bare-plain (c ∷ v) rest s b e)

pub pg_escape-Reads : (v : Text) → has_break v ≡ false → Reads (pg_escape v) v
unfolding pg_escape
pg_escape-Reads [] b = λ rest e. unfold read_value read_quoted in refl
pg_escape-Reads (c ∷ v) b = elim (Bool-cases (has_special (c ∷ v))) [
  | inl special ↦ rw special (λ rest e.
      unfold read_value in
      ap (read_quoted false) (append_assoc (replace (c ∷ v)) (39 ∷ []) rest)
      ∙ read_quoted-replace (c ∷ v) rest)
  | inr plain ↦ rw plain (read_value-plain c v plain b)
]

-- A numeral is read as itself.
numeral_plain :
    (s : Text) → are_numeral_codes s ≡ true → (has_special s ≡ false) × (has_break s ≡ false)
numeral_plain [] h = (refl, refl)
numeral_plain (c ∷ s) h = ground (arith, numeral_plain s)

pub numeral-Reads : (s : Text) → IsNumeral s → Reads s s
numeral-Reads [] h = elim h [ ]
numeral-Reads (c ∷ s) h =
    let (special, breaks) = numeral_plain (c ∷ s) h in read_value-plain c s special breaks

-- A key has no equals sign, and begins with no white space.
abbrev pub is_key : Text → Bool
is_key [] = true
is_key (c ∷ s) = not (nat_beq c b'=') && is_key s

abbrev pub starts_black : Text → Bool
starts_black [] = false
starts_black (c ∷ s) = not (is_white c)

read_key-pair :
    (key rest : Text) → is_key key ≡ true → read_key (key ++ (b'=' ∷ rest)) ≡ some (key, rest)
unfolding read_key
read_key-pair [] rest h = refl
read_key-pair (c ∷ key) rest h = ground (arith, read_key-pair key rest)

-- A line of a connection string: its key, how the value is printed, and the value.
pub record Line : Type 0 where
  pub key : Text
  pub printed : Text
  pub value : Text

abbrev pub line_text : Line → Text
line_text l = pair l.key l.printed

pub record IsReadable (l : Line) : Type 0 where
  pub has_key : is_key l.key ≡ true
  pub begins : starts_black l.key ≡ true
  pub reads : Reads l.printed l.value

skip_black : (s rest : Text) → starts_black s ≡ true → skip_white (s ++ rest) ≡ s ++ rest
skip_black [] rest h = cc
skip_black (c ∷ s) rest h = ground arith

setting_black :
    (more : Text → Option (List (Text × Text))) (s rest : Text)
    → starts_black s ≡ true
    → setting more (s ++ rest) ≡ with_key more (read_key (s ++ rest))
setting_black more [] rest h = cc
setting_black more (c ∷ s) rest h = refl

setting_line :
    (more : Text → Option (List (Text × Text))) (l : Line) (rest : Text)
    → IsReadable l
    → AtEnd rest
    → setting more (skip_white (line_text l ++ rest)) ≡ prepend (l.key, l.value) (more rest)
setting_line more l rest r e =
    ap (λ s. setting more (skip_white s)) (append_assoc l.key (b'=' ∷ l.printed) rest)
    ∙ ap (setting more) (skip_black l.key (b'=' ∷ (l.printed ++ rest)) r.begins)
    ∙ setting_black more l.key (b'=' ∷ (l.printed ++ rest)) r.begins
    ∙ ap (with_key more) (read_key-pair l.key (l.printed ++ rest) r.has_key)
    ∙ ap (with_value more l.key) (r.reads rest e)

abbrev pub meaning : List Line → List (Text × Text)
meaning ls = map (λ l. (l.key, l.value)) ls

pub read_settings-join :
    (fuel : ℕ) (ls : List Line)
    → length ls < fuel
    → All IsReadable ls
    → read_settings fuel (join (b' ' ∷ []) (map line_text ls)) ≡ some (meaning ls)
unfolding read_settings
read_settings-join zero ls h r = absurd (omega arith)
read_settings-join (suc fuel) [] h r = refl
read_settings-join (suc zero) (l ∷ ls) h r = absurd (omega arith)
read_settings-join (suc (suc fuel)) (l ∷ []) h r =
    ap (λ s. read_settings (suc (suc fuel)) s) (sym (append-nil (line_text l)))
    ∙ setting_line (read_settings (suc fuel)) l [] r.0 tt
read_settings-join (suc (suc fuel)) (l ∷ k ∷ ls) h r =
    setting_line (read_settings (suc fuel)) l (b' ' ∷ join (b' ' ∷ []) (map line_text (k ∷ ls))) r.0
      refl
    ∙ ap (prepend (l.key, l.value)) (read_settings-join (suc fuel) (k ∷ ls) (omega (arith, h)) r.1)
