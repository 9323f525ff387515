-- ===== src/Ch/Converter/Scalar.antt =====
-- StringConverter, IntConverter, FloatConverter and BoolConverter of ch/converter.go: one clause for
-- each case of the type switch, two for that of a pointer.
pub mod Bounds
use nexgo.Base.{
  ℕ, ◌+◌, ◌-◌, ◌^◌, ℤ, pos, Text, Bool, true, false, not, ◌||◌, Option, none, some, [], ok, codes,
  text_eq, format_int, format_uint, parse_int, ltb, nat_beq, is_zero, if◌then◌else◌,
}
use nexgo.Ch.Converter.Value.{
  Library, Value, Converted, bool, bool_ptr, float32, float32_ptr, float64, float64_ptr, int, int16,
  int16_ptr, int32, int32_ptr, int64, int64_ptr, int8, int8_ptr, int_ptr, json_number, string,
  string_ptr, uint, uint16, uint16_ptr, uint32, uint32_ptr, uint64, uint64_ptr, uint8, uint8_ptr,
  uint_ptr,
}

-- The greatest int64.
abbrev pub max_int64 : ℕ
max_int64 = 9223372036854775807

-- `if v > 9223372036854775807 { return 9223372036854775807 }`
unfoldable pub saturated : ℕ → ℤ
saturated v = if ltb max_int64 v then pos max_int64 else pos v

-- strconv.FormatBool
abbrev pub format_bool : Bool → Text
format_bool true = codes "true"
format_bool false = codes "false"

abbrev pub int_or_zero : Option ℤ → ℤ
int_or_zero none = pos 0
int_or_zero (some i) = i

abbrev pub int_of_bool : Bool → ℤ
int_of_bool true = pos 1
int_of_bool false = pos 0

unfoldable pub is_true_text : Text → Bool
is_true_text s = text_eq s (codes "true") || text_eq s (codes "1") || text_eq s (codes "TRUE")

module _ (L : Library) where
  abbrev pub float_or_zero : Option L.Float → L.Float
  float_or_zero none = L.zero_float
  float_or_zero (some f) = f

  -- StringConverter
  unfoldable pub convert_string : Value L → Converted L
  convert_string (string v) = ok (string v)
  convert_string (string_ptr none) = ok (string [])
  convert_string (string_ptr (some v)) = ok (string v)
  convert_string (int64 v) = ok (string (format_int v))
  convert_string (int64_ptr none) = ok (string [])
  convert_string (int64_ptr (some v)) = ok (string (format_int v))
  convert_string (int v) = ok (string (format_int v))
  convert_string (int_ptr none) = ok (string [])
  convert_string (int_ptr (some v)) = ok (string (format_int v))
  convert_string (int32 v) = ok (string (format_int v))
  convert_string (int32_ptr none) = ok (string [])
  convert_string (int32_ptr (some v)) = ok (string (format_int v))
  convert_string (uint64 v) = ok (string (format_uint v))
  convert_string (uint64_ptr none) = ok (string [])
  convert_string (uint64_ptr (some v)) = ok (string (format_uint v))
  convert_string (float64 v) = ok (string (L.format_float v))
  convert_string (float64_ptr none) = ok (string [])
  convert_string (float64_ptr (some v)) = ok (string (L.format_float v))
  convert_string (float32 v) = ok (string (L.format_float32 v))
  convert_string (float32_ptr none) = ok (string [])
  convert_string (float32_ptr (some v)) = ok (string (L.format_float32 v))
  convert_string (bool v) = ok (string (format_bool v))
  convert_string (bool_ptr none) = ok (string [])
  convert_string (bool_ptr (some v)) = ok (string (format_bool v))
  convert_string _ = ok (string [])

  -- IntConverter
  unfoldable pub convert_int : Value L → Converted L
  convert_int (int64 v) = ok (int64 v)
  convert_int (int64_ptr none) = ok (int64 (pos 0))
  convert_int (int64_ptr (some v)) = ok (int64 v)
  convert_int (int v) = ok (int64 v)
  convert_int (int_ptr none) = ok (int64 (pos 0))
  convert_int (int_ptr (some v)) = ok (int64 v)
  convert_int (int32 v) = ok (int64 v)
  convert_int (int32_ptr none) = ok (int64 (pos 0))
  convert_int (int32_ptr (some v)) = ok (int64 v)
  convert_int (int16 v) = ok (int64 v)
  convert_int (int16_ptr none) = ok (int64 (pos 0))
  convert_int (int16_ptr (some v)) = ok (int64 v)
  convert_int (int8 v) = ok (int64 v)
  convert_int (int8_ptr none) = ok (int64 (pos 0))
  convert_int (int8_ptr (some v)) = ok (int64 v)
  convert_int (uint64 v) = ok (int64 (saturated v))
  convert_int (uint64_ptr none) = ok (int64 (pos 0))
  convert_int (uint64_ptr (some v)) = ok (int64 (saturated v))
  convert_int (uint v) = ok (int64 (saturated v))
  convert_int (uint_ptr none) = ok (int64 (pos 0))
  convert_int (uint_ptr (some v)) = ok (int64 (saturated v))
  convert_int (uint32 v) = ok (int64 (pos v))
  convert_int (uint32_ptr none) = ok (int64 (pos 0))
  convert_int (uint32_ptr (some v)) = ok (int64 (pos v))
  convert_int (uint8 v) = ok (int64 (pos v))
  convert_int (uint8_ptr none) = ok (int64 (pos 0))
  convert_int (uint8_ptr (some v)) = ok (int64 (pos v))
  convert_int (uint16 v) = ok (int64 (pos v))
  convert_int (uint16_ptr none) = ok (int64 (pos 0))
  convert_int (uint16_ptr (some v)) = ok (int64 (pos v))
  convert_int (json_number v) = ok (int64 (int_or_zero (parse_int v)))
  convert_int (float64 v) = ok (int64 (L.int_of_float v))
  convert_int (float64_ptr none) = ok (int64 (pos 0))
  convert_int (float64_ptr (some v)) = ok (int64 (L.int_of_float v))
  convert_int (float32 v) = ok (int64 (L.int_of_float32 v))
  convert_int (float32_ptr none) = ok (int64 (pos 0))
  convert_int (float32_ptr (some v)) = ok (int64 (L.int_of_float32 v))
  convert_int (string v) = ok (int64 (int_or_zero (parse_int v)))
  convert_int (string_ptr none) = ok (int64 (pos 0))
  convert_int (string_ptr (some v)) = ok (int64 (int_or_zero (parse_int v)))
  convert_int (bool v) = ok (int64 (int_of_bool v))
  convert_int (bool_ptr none) = ok (int64 (pos 0))
  convert_int (bool_ptr (some v)) = ok (int64 (int_of_bool v))
  convert_int _ = ok (int64 (pos 0))

  -- FloatConverter
  unfoldable pub convert_float : Value L → Converted L
  convert_float (float64 v) = ok (float64 v)
  convert_float (float64_ptr none) = ok (float64 L.zero_float)
  convert_float (float64_ptr (some v)) = ok (float64 v)
  convert_float (float32 v) = ok (float64 (L.float_of_float32 v))
  convert_float (float32_ptr none) = ok (float64 L.zero_float)
  convert_float (float32_ptr (some v)) = ok (float64 (L.float_of_float32 v))
  convert_float (int64 v) = ok (float64 (L.float_of_int v))
  convert_float (int64_ptr none) = ok (float64 L.zero_float)
  convert_float (int64_ptr (some v)) = ok (float64 (L.float_of_int v))
  convert_float (int v) = ok (float64 (L.float_of_int v))
  convert_float (int_ptr none) = ok (float64 L.zero_float)
  convert_float (int_ptr (some v)) = ok (float64 (L.float_of_int v))
  convert_float (int32 v) = ok (float64 (L.float_of_int v))
  convert_float (int32_ptr none) = ok (float64 L.zero_float)
  convert_float (int32_ptr (some v)) = ok (float64 (L.float_of_int v))
  convert_float (uint64 v) = ok (float64 (L.float_of_int (pos v)))
  convert_float (uint64_ptr none) = ok (float64 L.zero_float)
  convert_float (uint64_ptr (some v)) = ok (float64 (L.float_of_int (pos v)))
  convert_float (json_number v) = ok (float64 (float_or_zero (L.parse_float v)))
  convert_float (string v) = ok (float64 (float_or_zero (L.parse_float v)))
  convert_float (string_ptr none) = ok (float64 L.zero_float)
  convert_float (string_ptr (some v)) = ok (float64 (float_or_zero (L.parse_float v)))
  convert_float _ = ok (float64 L.zero_float)

  -- BoolConverter
  unfoldable pub convert_bool : Value L → Converted L
  convert_bool (bool v) = ok (bool v)
  convert_bool (bool_ptr none) = ok (bool false)
  convert_bool (bool_ptr (some v)) = ok (bool v)
  convert_bool (int64 v) = ok (bool (not (is_zero v)))
  convert_bool (int64_ptr none) = ok (bool false)
  convert_bool (int64_ptr (some v)) = ok (bool (not (is_zero v)))
  convert_bool (int v) = ok (bool (not (is_zero v)))
  convert_bool (int_ptr none) = ok (bool false)
  convert_bool (int_ptr (some v)) = ok (bool (not (is_zero v)))
  convert_bool (int32 v) = ok (bool (not (is_zero v)))
  convert_bool (int32_ptr none) = ok (bool false)
  convert_bool (int32_ptr (some v)) = ok (bool (not (is_zero v)))
  convert_bool (uint64 v) = ok (bool (not (nat_beq v 0)))
  convert_bool (uint64_ptr none) = ok (bool false)
  convert_bool (uint64_ptr (some v)) = ok (bool (not (nat_beq v 0)))
  convert_bool (float64 v) = ok (bool (L.float_nonzero v))
  convert_bool (float64_ptr none) = ok (bool false)
  convert_bool (float64_ptr (some v)) = ok (bool (L.float_nonzero v))
  convert_bool (float32 v) = ok (bool (L.float32_nonzero v))
  convert_bool (float32_ptr none) = ok (bool false)
  convert_bool (float32_ptr (some v)) = ok (bool (L.float32_nonzero v))
  convert_bool (string v) = ok (bool (is_true_text v))
  convert_bool (string_ptr none) = ok (bool false)
  convert_bool (string_ptr (some v)) = ok (bool (is_true_text v))
  convert_bool _ = ok (bool false)
