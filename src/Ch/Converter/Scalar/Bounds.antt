-- ===== src/Ch/Converter/Scalar/Bounds.antt =====
-- The integers of ch/converter.go: what IntConverter writes is an int64, and what StringConverter
-- prints it reads back.
use nexgo.Base.{
  ℕ, ◌^◌, ◌≤◌, ◌<◌, ◌≡◌, refl, ℤ, pos, Text, Bool, true, false, none, some, ok, IsInt64, parse_int,
  format_int, parse_int-format_int, parse_int-IsInt64, Option-cases, ltb, arith, ltb→le, Bool-cases,
  inl, inr,
}
use nexgo.Ch.Converter.Value.{Library, Value, Converted, string, int64, uint64}
use nexgo.Ch.Converter.Scalar.{
  max_int64, saturated, int_or_zero, int_of_bool, convert_int, convert_string,
}

-- The integer in a Go value is in the range of an int64, or of its unsigned type.
abbrev pub IsGoValue : {L : Library} → Value L → Type 0
IsGoValue (Value.int64 v) = IsInt64 v
IsGoValue (Value.int v) = IsInt64 v
IsGoValue (Value.int32 v) = IsInt64 v
IsGoValue (Value.int16 v) = IsInt64 v
IsGoValue (Value.int8 v) = IsInt64 v
IsGoValue (Value.int64_ptr (some v)) = IsInt64 v
IsGoValue (Value.int_ptr (some v)) = IsInt64 v
IsGoValue (Value.int32_ptr (some v)) = IsInt64 v
IsGoValue (Value.int16_ptr (some v)) = IsInt64 v
IsGoValue (Value.int8_ptr (some v)) = IsInt64 v
IsGoValue (Value.uint32 v) = v < 2 ^ 32
IsGoValue (Value.uint16 v) = v < 2 ^ 16
IsGoValue (Value.uint8 v) = v < 2 ^ 8
IsGoValue (Value.uint32_ptr (some v)) = v < 2 ^ 32
IsGoValue (Value.uint16_ptr (some v)) = v < 2 ^ 16
IsGoValue (Value.uint8_ptr (some v)) = v < 2 ^ 8
IsGoValue _ = Unit {0}

saturated-IsInt64 : (v : ℕ) → IsInt64 (saturated v)
unfolding saturated
saturated-IsInt64 v = elim (Bool-cases (ltb max_int64 v)) [
  | inl e ↦ rw e (omega arith)
  | inr e ↦ let b : v ≤ max_int64 = ltb→le max_int64 v e in rw e (omega arith)
]

int_or_zero-IsInt64 : (s : Text) → IsInt64 (int_or_zero (parse_int s))
int_or_zero-IsInt64 s = elim (Option-cases (parse_int s)) [
  | inl e ↦ rw e (omega arith)
  | inr (i, e) ↦ rw e (parse_int-IsInt64 s i e)
]

int_of_bool-IsInt64 : (b : Bool) → IsInt64 (int_of_bool b)
int_of_bool-IsInt64 true = omega arith
int_of_bool-IsInt64 false = omega arith

abbrev HasInt : {L : Library} → Converted L → Type 0
HasInt r = (i : ℤ) × (r ≡ ok (int64 i)) × IsInt64 i

module _ (L : Library) (float_law : (f : L.Float) → IsInt64 (L.int_of_float f))
    (float32_law : (f : L.Float32) → IsInt64 (L.int_of_float32 f)) where
  ranged : (v : Value L) → IsGoValue v → HasInt (convert_int L v)
  unfolding convert_int
  ranged Value.nil h = (pos 0, refl, (omega arith))
  ranged (Value.string v) h = (int_or_zero (parse_int v), refl, int_or_zero-IsInt64 v)
  ranged (Value.string_ptr none) h = (pos 0, refl, (omega arith))
  ranged (Value.string_ptr (some v)) h = (int_or_zero (parse_int v), refl, int_or_zero-IsInt64 v)
  ranged (Value.int64 v) h = (v, refl, h)
  ranged (Value.int v) h = (v, refl, h)
  ranged (Value.int32 v) h = (v, refl, h)
  ranged (Value.int16 v) h = (v, refl, h)
  ranged (Value.int8 v) h = (v, refl, h)
  ranged (Value.int64_ptr none) h = (pos 0, refl, (omega arith))
  ranged (Value.int64_ptr (some v)) h = (v, refl, h)
  ranged (Value.int_ptr none) h = (pos 0, refl, (omega arith))
  ranged (Value.int_ptr (some v)) h = (v, refl, h)
  ranged (Value.int32_ptr none) h = (pos 0, refl, (omega arith))
  ranged (Value.int32_ptr (some v)) h = (v, refl, h)
  ranged (Value.int16_ptr none) h = (pos 0, refl, (omega arith))
  ranged (Value.int16_ptr (some v)) h = (v, refl, h)
  ranged (Value.int8_ptr none) h = (pos 0, refl, (omega arith))
  ranged (Value.int8_ptr (some v)) h = (v, refl, h)
  ranged (Value.uint64 v) h = (saturated v, refl, saturated-IsInt64 v)
  ranged (Value.uint v) h = (saturated v, refl, saturated-IsInt64 v)
  ranged (Value.uint32 v) h = (pos v, refl, (omega arith))
  ranged (Value.uint16 v) h = (pos v, refl, (omega arith))
  ranged (Value.uint8 v) h = (pos v, refl, (omega arith))
  ranged (Value.uint64_ptr none) h = (pos 0, refl, (omega arith))
  ranged (Value.uint64_ptr (some v)) h = (saturated v, refl, saturated-IsInt64 v)
  ranged (Value.uint_ptr none) h = (pos 0, refl, (omega arith))
  ranged (Value.uint_ptr (some v)) h = (saturated v, refl, saturated-IsInt64 v)
  ranged (Value.uint32_ptr none) h = (pos 0, refl, (omega arith))
  ranged (Value.uint32_ptr (some v)) h = (pos v, refl, (omega arith))
  ranged (Value.uint16_ptr none) h = (pos 0, refl, (omega arith))
  ranged (Value.uint16_ptr (some v)) h = (pos v, refl, (omega arith))
  ranged (Value.uint8_ptr none) h = (pos 0, refl, (omega arith))
  ranged (Value.uint8_ptr (some v)) h = (pos v, refl, (omega arith))
  ranged (Value.float64 v) h = (L.int_of_float v, refl, float_law v)
  ranged (Value.float64_ptr none) h = (pos 0, refl, (omega arith))
  ranged (Value.float64_ptr (some v)) h = (L.int_of_float v, refl, float_law v)
  ranged (Value.float32 v) h = (L.int_of_float32 v, refl, float32_law v)
  ranged (Value.float32_ptr none) h = (pos 0, refl, (omega arith))
  ranged (Value.float32_ptr (some v)) h = (L.int_of_float32 v, refl, float32_law v)
  ranged (Value.bool v) h = (int_of_bool v, refl, int_of_bool-IsInt64 v)
  ranged (Value.bool_ptr none) h = (pos 0, refl, (omega arith))
  ranged (Value.bool_ptr (some v)) h = (int_of_bool v, refl, int_of_bool-IsInt64 v)
  ranged (Value.json_number v) h = (int_or_zero (parse_int v), refl, int_or_zero-IsInt64 v)
  ranged (Value.decimal v) h = (pos 0, refl, (omega arith))
  ranged (Value.decimal_ptr v) h = (pos 0, refl, (omega arith))
  ranged (Value.time v) h = (pos 0, refl, (omega arith))
  ranged (Value.time_ptr v) h = (pos 0, refl, (omega arith))
  ranged (Value.ip v) h = (pos 0, refl, (omega arith))
  ranged (Value.addr v) h = (pos 0, refl, (omega arith))
  ranged (Value.bytes v) h = (pos 0, refl, (omega arith))
  ranged (Value.default_func v) h = (pos 0, refl, (omega arith))
  ranged (Value.other v) h = (pos 0, refl, (omega arith))

  -- For every value whose integers are in the range of an int64, or of their unsigned type, and
  -- where the conversion of a float gives some int64: IntConverter returns no error and writes an
  -- integer in the range of an int64. An unsigned 64-bit integer is written as itself up to the
  -- greatest int64, and as that above it.
  pub convert_int_bounds :
      (v : Value L)
      → IsGoValue v
      → ((i : ℤ) × (convert_int L v ≡ ok (int64 i)) × IsInt64 i)
        × ((n : ℕ) → n ≤ max_int64 → convert_int L (uint64 n) ≡ ok (int64 (pos n)))
        × ((n : ℕ) → max_int64 < n → convert_int L (uint64 n) ≡ ok (int64 (pos max_int64)))
  unfolding convert_int saturated
  convert_int_bounds v h = (ranged v h, (λ n b. ground arith), λ n b. ground arith)

module _ (L : Library) where
  -- An int64 that StringConverter printed is read back by IntConverter.
  convert_int-convert_string :
      (i : ℤ)
      → IsInt64 i
      → (s : Text) × (convert_string L (int64 i) ≡ ok (string s))
        × (convert_int L (string s) ≡ ok (int64 i))
  unfolding convert_int convert_string
  convert_int-convert_string i h = (format_int i, refl, rw (parse_int-format_int i h))
