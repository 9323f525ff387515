-- ===== src/Ch/Converter/Columns.antt =====
-- What a column writes: getZeroValue and getConverter of ch/converter.go, convertValue and
-- getColumnValue of ch/writer.go. The values of Map and Array columns whose type is resolved are
-- those of Ch/Converter/Container: where the code would build one, the result here is `none`.
pub mod Nil
use nexgo.Base.{
  ℕ, pos, Text, Bool, true, false, Option, none, some, List, [], ◌∷◌, Dict, lookup, nat_eq, list_eq,
  Result, ok, err, if◌then◌else◌,
}
use nexgo.Ch.Converter.Value.{Library, Value, Converted, nil, default_func}
use nexgo.Ch.Converter.Value
use nexgo.Ch.Converter.Scalar.{convert_string, convert_int, convert_float, convert_bool}
use nexgo.Ch.Converter.Other.{
  convert_decimal, convert_date_time, convert_date, convert_enum, convert_ip, min_time, ipv6_zero,
}
use nexgo.Ch.Converter.Evaluate.{evaluate}
use nexgo.Ch.Converter.Column.{TableColumn}
use nexgo.Ch.Converter.Column.Default.{
  ClickhouseType, unknown, string, int, float, decimal, bool, date_time, enum, ip, date, map, array,
}

-- The converter values that getConverter returns.
pub data Converter (S : Type 0) : Type 0 where
  string_converter int_converter float_converter decimal_converter : Converter S
  bool_converter date_time_converter date_converter ip_converter : Converter S
  enum_converter : Text → Converter S
  map_converter array_converter : Option S → Converter S

abbrev pub converter_for : {S : Type 0} → ClickhouseType → Text → Option S → Converter S
converter_for unknown first scan = string_converter
converter_for int first scan = int_converter
converter_for string first scan = string_converter
converter_for float first scan = float_converter
converter_for decimal first scan = decimal_converter
converter_for bool first scan = bool_converter
converter_for date_time first scan = date_time_converter
converter_for date first scan = date_converter
converter_for enum first scan = enum_converter first
converter_for ip first scan = ip_converter
converter_for map first scan = map_converter scan
converter_for array first scan = array_converter scan

module _ (L : Library) where
  abbrev pub converted_or_zero : Option (Value L) → Option (Converted L) → Option (Value L)
  converted_or_zero zero none = none
  converted_or_zero zero (some (ok v)) = some v
  converted_or_zero zero (some (err e)) = zero

  -- `col.DefaultValue`, evaluated if it is a function.
  abbrev pub default_or_zero :
      L.Time → List ℕ → Option (Value L) → Option (Value L) → Option (Value L)
  default_or_zero now random zero none = zero
  default_or_zero now random zero (some (default_func f)) = some (evaluate L f now random)
  default_or_zero now random zero (some v) = some v

module _ (L : Library) {S : Type 0} where
  unfoldable pub get_converter : TableColumn L S → Converter S
  get_converter col = converter_for col.parsed_type col.enum_first_value col.container_scan_type

  abbrev pub unresolved : {A : Type 0} → Option S → A → Option A
  unresolved none a = some a
  unresolved (some scan) a = none

  abbrev pub zero_for : ClickhouseType → Text → Option S → Option (Value L)
  zero_for unknown first scan = some nil
  zero_for string first scan = some (Value.string [])
  zero_for int first scan = some (Value.int64 (pos 0))
  zero_for float first scan = some (Value.float64 L.zero_float)
  zero_for decimal first scan = some (Value.decimal L.zero_decimal)
  zero_for bool first scan = some (Value.bool false)
  zero_for date_time first scan = some (Value.time (min_time L))
  zero_for date first scan = some (Value.time (min_time L))
  zero_for enum first scan = some (Value.string first)
  zero_for ip first scan = some (Value.ip ipv6_zero)
  zero_for map first scan = unresolved scan nil
  zero_for array first scan = unresolved scan nil

  unfoldable pub get_zero_value : TableColumn L S → Option (Value L)
  get_zero_value col =
      if col.is_nullable
      then some nil
      else zero_for col.parsed_type col.enum_first_value col.container_scan_type

  unfoldable pub convert : Converter S → Value L → Option (Converted L)
  convert string_converter v = some (convert_string L v)
  convert int_converter v = some (convert_int L v)
  convert float_converter v = some (convert_float L v)
  convert decimal_converter v = some (convert_decimal L v)
  convert bool_converter v = some (convert_bool L v)
  convert date_time_converter v = some (convert_date_time L v)
  convert date_converter v = some (convert_date L v)
  convert ip_converter v = some (convert_ip L v)
  convert (enum_converter first) v = some (convert_enum L first v)
  convert (map_converter scan) v = unresolved scan (ok nil)
  convert (array_converter scan) v = unresolved scan (ok nil)

  unfoldable pub convert_value : Value L → TableColumn L S → Option (Value L)
  unfolding get_converter get_zero_value convert
  convert_value v col = converted_or_zero L (get_zero_value col) (convert (get_converter col) v)

  abbrev pub value_for : L.Time → List ℕ → TableColumn L S → Option (Value L) → Option (Value L)
  value_for now random col none =
      default_or_zero L now random (get_zero_value col) col.default_value
  value_for now random col (some nil) =
      default_or_zero L now random (get_zero_value col) col.default_value
  value_for now random col (some v) = convert_value v col

  unfoldable pub get_column_value :
      L.Time → List ℕ → Dict Text (Value L) → TableColumn L S → Option (Value L)
  unfolding get_zero_value convert_value
  get_column_value now random values col = value_for now random col (lookup col.name values)
