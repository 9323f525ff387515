-- ===== src/Ch/Converter/Container/Coerce.antt =====
-- coerceTo and scalarConverterForType of ch/converter.go, and the zero values of reflect.Zero.
-- A result of type Option is `none` where the code panics.
use nexgo.Base.{ℕ, suc, ◌-◌, ◌%◌, ◌^◌, ℤ, pos, negsuc, wrap, false, Option, none, some, []}
use nexgo.Ch.Converter.Value.{Library, Value, Converted}
use nexgo.Ch.Converter.Scalar.{convert_string, convert_int, convert_float, convert_bool}
use nexgo.Ch.Converter.Other.{convert_decimal, convert_date_time, convert_ip}
use nexgo.Ch.Converter.Container.Types.{
  GoType, string_type, bool_type, float32_type, float64_type, time_type, decimal_type, ip_type,
  any_type, int_type, int8_type, int16_type, int32_type, int64_type, uint_type, uint8_type,
  uint16_type, uint32_type, uint64_type, ptr_type, slice_type, map_type, other_type, Go, leaf,
  nil_pointer, nil_slice, nil_map, Conversion, not_convertible, panics, converted, Reflection,
}

-- The `w` low bits of an integer in two's complement: its conversion to an unsigned type.
unfoldable pub low_bits : ℕ → ℤ → ℕ
low_bits w (pos n) = n % 2 ^ w
low_bits w (negsuc n) = 2 ^ w - suc (n % 2 ^ w)

-- The conversion to the signed type of `w + 1` bits.
unfoldable pub signed_bits : ℕ → ℤ → ℤ
unfolding low_bits
signed_bits w i = wrap w (low_bits (suc w) i)

module _ (L : Library) (R : Reflection L) where
  -- reflect.Zero
  unfoldable pub zero_of : GoType → Go L
  zero_of string_type = leaf (Value.string [])
  zero_of bool_type = leaf (Value.bool false)
  zero_of float32_type = leaf (Value.float32 R.zero_float32)
  zero_of float64_type = leaf (Value.float64 L.zero_float)
  zero_of time_type = leaf (Value.time R.zero_time)
  zero_of decimal_type = leaf (Value.decimal R.empty_decimal)
  zero_of ip_type = leaf (Value.ip [])
  zero_of any_type = leaf Value.nil
  zero_of int_type = leaf (Value.int (pos 0))
  zero_of int8_type = leaf (Value.int8 (pos 0))
  zero_of int16_type = leaf (Value.int16 (pos 0))
  zero_of int32_type = leaf (Value.int32 (pos 0))
  zero_of int64_type = leaf (Value.int64 (pos 0))
  zero_of uint_type = leaf (Value.uint 0)
  zero_of uint8_type = leaf (Value.uint8 0)
  zero_of uint16_type = leaf (Value.uint16 0)
  zero_of uint32_type = leaf (Value.uint32 0)
  zero_of uint64_type = leaf (Value.uint64 0)
  zero_of (ptr_type t) = nil_pointer t
  zero_of (slice_type t) = nil_slice t
  zero_of (map_type k t) = nil_map k t
  zero_of (other_type n) = leaf (R.zero_other n)

  abbrev pub after_conversion : GoType → Conversion L → Option (Go L)
  after_conversion t not_convertible = some (zero_of t)
  after_conversion t panics = none
  after_conversion t (converted v) = some v

  -- coerceTo: assignment and conversion for what the scalar converters return and for interfaces.
  unfoldable pub coerce_to : Go L → GoType → Option (Go L)
  unfolding zero_of signed_bits low_bits
  coerce_to (leaf Value.nil) t = some (zero_of t)
  coerce_to v any_type = some v
  coerce_to (leaf (Value.string s)) string_type = some (leaf (Value.string s))
  coerce_to (leaf (Value.bool b)) bool_type = some (leaf (Value.bool b))
  coerce_to (leaf (Value.float64 f)) float64_type = some (leaf (Value.float64 f))
  coerce_to (leaf (Value.float64 f)) float32_type =
      some (leaf (Value.float32 (R.float32_of_float f)))
  coerce_to (leaf (Value.time t)) time_type = some (leaf (Value.time t))
  coerce_to (leaf (Value.decimal d)) decimal_type = some (leaf (Value.decimal d))
  coerce_to (leaf (Value.ip a)) ip_type = some (leaf (Value.ip a))
  coerce_to (leaf (Value.int64 i)) int64_type = some (leaf (Value.int64 i))
  coerce_to (leaf (Value.int64 i)) int_type = some (leaf (Value.int i))
  coerce_to (leaf (Value.int64 i)) int32_type = some (leaf (Value.int32 (signed_bits 31 i)))
  coerce_to (leaf (Value.int64 i)) int16_type = some (leaf (Value.int16 (signed_bits 15 i)))
  coerce_to (leaf (Value.int64 i)) int8_type = some (leaf (Value.int8 (signed_bits 7 i)))
  coerce_to (leaf (Value.int64 i)) uint64_type = some (leaf (Value.uint64 (low_bits 64 i)))
  coerce_to (leaf (Value.int64 i)) uint_type = some (leaf (Value.uint (low_bits 64 i)))
  coerce_to (leaf (Value.int64 i)) uint32_type = some (leaf (Value.uint32 (low_bits 32 i)))
  coerce_to (leaf (Value.int64 i)) uint16_type = some (leaf (Value.uint16 (low_bits 16 i)))
  coerce_to (leaf (Value.int64 i)) uint8_type = some (leaf (Value.uint8 (low_bits 8 i)))
  coerce_to v t = after_conversion t (R.convert t v)

module _ (L : Library) where
  -- The Convert method that scalarConverterForType selects, `none` for nil.
  unfoldable pub scalar_converter_for_type : GoType → Option (Value L → Converted L)
  unfolding convert_string convert_int convert_float convert_bool convert_date_time convert_decimal
      convert_ip
  scalar_converter_for_type string_type = some (convert_string L)
  scalar_converter_for_type int_type = some (convert_int L)
  scalar_converter_for_type int8_type = some (convert_int L)
  scalar_converter_for_type int16_type = some (convert_int L)
  scalar_converter_for_type int32_type = some (convert_int L)
  scalar_converter_for_type int64_type = some (convert_int L)
  scalar_converter_for_type uint_type = some (convert_int L)
  scalar_converter_for_type uint8_type = some (convert_int L)
  scalar_converter_for_type uint16_type = some (convert_int L)
  scalar_converter_for_type uint32_type = some (convert_int L)
  scalar_converter_for_type uint64_type = some (convert_int L)
  scalar_converter_for_type float32_type = some (convert_float L)
  scalar_converter_for_type float64_type = some (convert_float L)
  scalar_converter_for_type bool_type = some (convert_bool L)
  scalar_converter_for_type time_type = some (convert_date_time L)
  scalar_converter_for_type decimal_type = some (convert_decimal L)
  scalar_converter_for_type ip_type = some (convert_ip L)
  scalar_converter_for_type any_type = none
  scalar_converter_for_type (ptr_type t) = none
  scalar_converter_for_type (slice_type t) = none
  scalar_converter_for_type (map_type k t) = none
  scalar_converter_for_type (other_type n) = none
