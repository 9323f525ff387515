-- ===== src/Base/Strconv.antt =====
-- Go's strconv for base 10: FormatUint, FormatInt and ParseInt at 64 bits.
use Prim.Native.Nat.{ℕ, zero, suc, ◌+◌, ◌-◌, ◌*◌, ◌/◌, ◌%◌, ◌^◌, ◌≤◌, ◌<◌}
use mathlib.Core.Path.{◌≡◌, refl, ◌∙◌, ap, sym, subst}
use mathlib.Core.Logic.{inl, inr}
use mathlib.Core.Bool.{Bool, true, false, ◌&&◌, ◌||◌}
use mathlib.Core.Option.{Option, none, some}
use mathlib.Core.List.{[], ◌∷◌}
use native.Mathlib.Omega.{arith}
use nexgo.Base.Tests.{leb, ltb, nat_beq, if◌then◌else◌, Bool-cases, le→leb, lt→ltb}
use nexgo.Base.Strings.{Text}
use nexgo.Base.Integers.{ℤ, pos, negsuc, pos_part, neg_part}

-- The digits of `n`, in front of `acc`.
digits : ℕ → ℕ → Text → Text
digits zero n acc = acc
digits (suc fuel) n acc =
    let more = digits fuel (n / 10) ((48 + n % 10) ∷ acc) in
    if nat_beq (n / 10) 0 then (48 + n % 10) ∷ acc else more

unfoldable pub format_uint : ℕ → Text
unfolding digits
format_uint n = digits (suc n) n []

unfoldable pub format_int : ℤ → Text
unfolding format_uint
format_int (pos n) = format_uint n
format_int (negsuc n) = b'-' ∷ format_uint (suc n)

-- The number that a text of digits stands for, behind the digits read so far.
parse_digits : Text → ℕ → Option ℕ
parse_digits [] n = some n
parse_digits (c ∷ s) n =
    let rest = parse_digits s (n * 10 + (c - 48)) in if leb 48 c && leb c 57 then rest else none

abbrev parse_unsigned : Text → Option ℕ
parse_unsigned [] = none
parse_unsigned (c ∷ s) = parse_digits (c ∷ s) 0

abbrev signed : Bool → Option ℕ → Option ℤ
signed negative none = none
signed false (some n) = if ltb n (2 ^ 63) then some (pos n) else none
signed true (some zero) = some (pos 0)
signed true (some (suc n)) = if ltb n (2 ^ 63) then some (negsuc n) else none

-- `none` is an error, of syntax or of range.
unfoldable pub parse_int : Text → Option ℤ
unfolding parse_digits
parse_int [] = none
parse_int (c ∷ s) =
    if nat_beq c b'-'
    then signed true (parse_unsigned s)
    else if nat_beq c b'+'
    then signed false (parse_unsigned s)
    else signed false (parse_unsigned (c ∷ s))

-- The range of an int64.
abbrev pub IsInt64 : ℤ → Type 0
IsInt64 z = (pos_part z < 2 ^ 63) × (neg_part z ≤ 2 ^ 63)

parse_digits_step :
    (q d n : ℕ) (acc : Text)
    → d < 10
    → q * 10 + d ≡ n
    → parse_digits ((48 + d) ∷ acc) q ≡ parse_digits acc n
unfolding parse_digits
parse_digits_step q d n acc h e =
    rw (le→leb 48 (48 + d) (omega arith), le→leb (48 + d) 57 (omega arith))
      (ap (parse_digits acc) (omega arith))

parse_digits-digits :
    (fuel n : ℕ) (acc : Text) → n < fuel → parse_digits (digits fuel n acc) 0 ≡ parse_digits acc n
unfolding digits
parse_digits-digits zero n acc h = absurd (omega arith)
parse_digits-digits (suc fuel) n acc h = elim (Bool-cases (nat_beq (n / 10) 0)) [
  | inl e ↦ rw e (parse_digits_step 0 (n % 10) n acc (omega arith) (ground arith))
  | inr e ↦ rw e (
      parse_digits-digits fuel (n / 10) ((48 + n % 10) ∷ acc) (ground arith)
      ∙ parse_digits_step (n / 10) (n % 10) n acc (omega arith) (omega arith))
]

-- A printed number begins with a digit.
digits_first :
    (fuel n : ℕ) (acc : Text)
    → n < fuel
    → (c : ℕ) × (s : Text) × (digits fuel n acc ≡ c ∷ s) × (48 ≤ c)
unfolding digits
digits_first zero n acc h = absurd (omega arith)
digits_first (suc fuel) n acc h = elim (Bool-cases (nat_beq (n / 10) 0)) [
  | inl e ↦ rw e (48 + n % 10, acc, refl, omega arith)
  | inr e ↦ rw e (digits_first fuel (n / 10) ((48 + n % 10) ∷ acc) (ground arith))
]

parse_format_uint : (n : ℕ) → parse_unsigned (format_uint n) ≡ some n
unfolding format_uint
parse_format_uint n =
    let (c, s, e, h) = digits_first (suc n) n [] (omega arith) in
    subst (λ t. parse_digits t 0 ≡ some n → parse_unsigned t ≡ some n) (sym e) (λ p. p)
      (unfold parse_digits in parse_digits-digits (suc n) n [] (omega arith))

not_sign : (c k : ℕ) → k < c → nat_beq c k ≡ false
not_sign c k h = ground arith

parse_positive_from :
    (n c : ℕ) (s : Text)
    → n < 2 ^ 63
    → 48 ≤ c
    → parse_unsigned (c ∷ s) ≡ some n
    → parse_int (c ∷ s) ≡ some (pos n)
unfolding parse_int
parse_positive_from n c s b h p =
    rw (not_sign c b'-' (omega arith), not_sign c b'+' (omega arith), p, lt→ltb n (2 ^ 63) b)

parse_positive : (n : ℕ) → n < 2 ^ 63 → parse_int (format_uint n) ≡ some (pos n)
parse_positive n b =
    let (c, s, e, h) = digits_first (suc n) n [] (omega arith) in
    let f : format_uint n ≡ c ∷ s = unfold format_uint in e in
    subst (λ t. parse_unsigned t ≡ some n → parse_int t ≡ some (pos n)) (sym f)
      (parse_positive_from n c s b h) (parse_format_uint n)

-- Every int64 is read back from its text.
pub parse_int-format_int : (z : ℤ) → IsInt64 z → parse_int (format_int z) ≡ some z
unfolding format_int
parse_int-format_int (pos n) h = parse_positive n h.0
parse_int-format_int (negsuc n) h =
    unfold parse_int in rw (parse_format_uint (suc n), lt→ltb n (2 ^ 63) (omega arith))

signed-IsInt64 : (b : Bool) (o : Option ℕ) (z : ℤ) → signed b o ≡ some z → IsInt64 z
signed-IsInt64 b none z h = cc
signed-IsInt64 false (some n) z h = ground arith
signed-IsInt64 true (some zero) z h = ground arith
signed-IsInt64 true (some (suc n)) z h = ground arith

-- What is read is an int64.
pub parse_int-IsInt64 : (s : Text) (z : ℤ) → parse_int s ≡ some z → IsInt64 z
unfolding parse_int
parse_int-IsInt64 [] z h = cc
parse_int-IsInt64 (c ∷ s) z h = ground (
  arith,
  signed-IsInt64 true (parse_unsigned s) z,
  signed-IsInt64 false (parse_unsigned s) z,
  signed-IsInt64 false (parse_unsigned (c ∷ s)) z,
)

-- A numeral: at least one character, each of them a digit or a minus sign.
abbrev pub is_numeral_code : ℕ → Bool
is_numeral_code c = leb 48 c && leb c 57 || nat_beq c b'-'

abbrev pub are_numeral_codes : Text → Bool
are_numeral_codes [] = true
are_numeral_codes (c ∷ s) = is_numeral_code c && are_numeral_codes s

abbrev pub IsNumeral : Text → Type 0
IsNumeral [] = ⊥
IsNumeral (c ∷ s) = are_numeral_codes (c ∷ s) ≡ true

digits-IsNumeral :
    (fuel n : ℕ) (acc : Text)
    → n < fuel
    → are_numeral_codes acc ≡ true
    → IsNumeral (digits fuel n acc)
unfolding digits
digits-IsNumeral zero n acc l h = absurd (omega arith)
digits-IsNumeral (suc fuel) n acc l h = elim (Bool-cases (nat_beq (n / 10) 0)) [
  | inl e ↦ rw e (ground arith)
  | inr e ↦
      rw e (digits-IsNumeral fuel (n / 10) ((48 + n % 10) ∷ acc) (ground arith) (ground arith))
]

pub format_int-IsNumeral : (z : ℤ) → IsNumeral (format_int z)
unfolding format_int
format_int-IsNumeral (pos n) =
    unfold format_uint in digits-IsNumeral (suc n) n [] (omega arith) refl
format_int-IsNumeral (negsuc n) =
    negated (format_uint (suc n))
      (unfold format_uint in digits-IsNumeral (suc (suc n)) (suc n) [] (omega arith) refl)
  where
    negated : (s : Text) → IsNumeral s → (is_numeral_code b'-' && are_numeral_codes s) ≡ true
    negated [] h = refl
    negated (c ∷ s) h = h
