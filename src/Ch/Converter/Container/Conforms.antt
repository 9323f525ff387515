-- ===== src/Ch/Converter/Container/Conforms.antt =====
-- The values of a type, as ch/converter.go is to write them in Map and Array columns.
use nexgo.Base.{
  ℕ, suc, ◌+◌, ◌≤◌, ◌<◌, ◌^◌, ◌%◌, ℤ, pos, negsuc, pos_part, neg_part, wrap, Bool, true, false, ◌≡◌,
  Option, none, some, Result, ok, err, arith, Bool-cases, inl, inr, ltb, ltb→lt, ltb→le,
}
use nexgo.Ch.Converter.Value.{Library, Value, ConvertError}
use nexgo.Ch.Converter.Container.Types.{
  GoType, string_type, bool_type, float32_type, float64_type, time_type, decimal_type, ip_type,
  any_type, int_type, int8_type, int16_type, int32_type, int64_type, uint_type, uint8_type,
  uint16_type, uint32_type, uint64_type, ptr_type, slice_type, map_type, other_type, Go, leaf,
  pointer, slice, mapping, Items, no_items, item, Entries, no_entries, entry,
}
use nexgo.Ch.Converter.Container.Coerce.{low_bits, signed_bits}

-- -2 ^ w <= i < 2 ^ w
abbrev pub InSigned : ℕ → ℤ → Type 0
InSigned w i = (pos_part i < 2 ^ w) × (neg_part i ≤ 2 ^ w)

pub low_bits_bound : (w : ℕ) (i : ℤ) → 0 < 2 ^ w → low_bits w i < 2 ^ w
unfolding low_bits
low_bits_bound w (pos n) h = grind arith
low_bits_bound w (negsuc n) h = omega (arith, h)

wrap_bound : (w n : ℕ) → 2 ^ suc w ≡ 2 ^ w + 2 ^ w → 0 < 2 ^ w → InSigned w (wrap w n)
unfolding wrap
wrap_bound w n e h = elim (Bool-cases (ltb (n % 2 ^ suc w) (2 ^ w))) [
  | inl b ↦ rw b (ltb→lt (n % 2 ^ suc w) (2 ^ w) b, omega arith)
  | inr b ↦
      let above : 2 ^ w ≤ n % 2 ^ suc w = ltb→le (n % 2 ^ suc w) (2 ^ w) b in
      rw b (h, omega (arith, e, h, above))
]

pub signed_bits_bound :
    (w : ℕ) (i : ℤ) → 2 ^ suc w ≡ 2 ^ w + 2 ^ w → 0 < 2 ^ w → InSigned w (signed_bits w i)
unfolding signed_bits
signed_bits_bound w i e h = wrap_bound w (low_bits (suc w) i) e h

-- The result satisfies `P`; the code panics only if `Safe` does not hold.
abbrev pub Ensures : {A : Type 0} → Type 0 → (A → Type 0) → Option A → Type 0
Ensures Safe P none = ¬ Safe
Ensures Safe P (some v) = P v

-- The types that may be keys of a map and whose values are not held in interfaces.
abbrev pub is_key : GoType → Bool
is_key any_type = false
is_key ip_type = false
is_key (ptr_type t) = false
is_key (slice_type t) = false
is_key (map_type k t) = false
is_key (other_type n) = false
is_key _ = true

-- The types that are built of scalars and interfaces, with scalar keys.
abbrev pub IsPlain : GoType → Type 0
IsPlain (ptr_type t) = IsPlain t
IsPlain (slice_type t) = IsPlain t
IsPlain (map_type k t) = (is_key k ≡ true) × IsPlain k × IsPlain t
IsPlain (other_type n) = ⊥
IsPlain _ = Unit

module _ {L : Library} (IsOther : ℕ → Go L → Type 0) where
  abbrev pub AllItems : (Go L → Type 0) → Items L → Type 0
  AllItems P no_items = Unit
  AllItems P (item v items) = P v × AllItems P items

  abbrev pub AllEntries : (Go L → Type 0) → (Go L → Type 0) → Entries L → Type 0
  AllEntries P Q no_entries = Unit
  AllEntries P Q (entry k v entries) = P k × Q v × AllEntries P Q entries

  -- A value of exactly the type: a pointer where the type has one, and unsigned integers and signed
  -- ones narrower than 64 bits in the range of their types. Anything can stand in an interface, and
  -- int and int64 have no bound here.
  abbrev pub Conforms : GoType → Go L → Type 0
  Conforms any_type v = Unit
  Conforms string_type (leaf (Value.string s)) = Unit
  Conforms bool_type (leaf (Value.bool b)) = Unit
  Conforms float32_type (leaf (Value.float32 f)) = Unit
  Conforms float64_type (leaf (Value.float64 f)) = Unit
  Conforms time_type (leaf (Value.time t)) = Unit
  Conforms decimal_type (leaf (Value.decimal d)) = Unit
  Conforms ip_type (leaf (Value.ip a)) = Unit
  Conforms int_type (leaf (Value.int i)) = Unit
  Conforms int64_type (leaf (Value.int64 i)) = Unit
  Conforms int32_type (leaf (Value.int32 i)) = InSigned 31 i
  Conforms int16_type (leaf (Value.int16 i)) = InSigned 15 i
  Conforms int8_type (leaf (Value.int8 i)) = InSigned 7 i
  Conforms uint_type (leaf (Value.uint n)) = n < 2 ^ 64
  Conforms uint64_type (leaf (Value.uint64 n)) = n < 2 ^ 64
  Conforms uint32_type (leaf (Value.uint32 n)) = n < 2 ^ 32
  Conforms uint16_type (leaf (Value.uint16 n)) = n < 2 ^ 16
  Conforms uint8_type (leaf (Value.uint8 n)) = n < 2 ^ 8
  Conforms (ptr_type t) (pointer u v) = (u ≡ t) × Conforms t v
  Conforms (slice_type t) (slice u items) = (u ≡ t) × AllItems (Conforms t) items
  Conforms (map_type k t) (mapping j u entries) =
      (j ≡ k) × (u ≡ t) × AllEntries (Conforms k) (Conforms t) entries
  Conforms (other_type n) v = IsOther n v
  Conforms _ _ = ⊥

  -- What Convert writes for a scan type.
  abbrev pub Written : Option GoType → Result ConvertError (Go L) → Type 0
  Written none r = r ≡ ok (leaf Value.nil)
  Written (some t) (ok v) = Conforms t v
  Written (some t) (err e) = ⊥

abbrev pub Plain : Option GoType → Type 0
Plain none = Unit
Plain (some t) = IsPlain t
