-- ===== src/Ch/Converter/Tests.antt =====
-- The theorems about ch/converter.go at concrete inputs, on a library whose floats are truth values
-- and whose decimals and times are integers.
use nexgo.Base.{
  ℕ, ◌^◌, ◌<◌, ◌≤◌, ◌≡◌, ◌≢◌, refl, ℤ, pos, Bool, true, false, ◌||◌, Option, none, some, List, [],
  ◌∷◌, ◌++◌, Text, codes, IsInt64, Result, ok, arith, is_zero, Dict, if◌then◌else◌,
}
use nexgo.Ch.Converter.Value.{Library, int64, uint64, int64_ptr, nil}
use nexgo.Ch.Converter.Scalar.{convert_int, max_int64}
use nexgo.Ch.Converter.Scalar.Bounds.{convert_int_bounds}
use nexgo.Ch.Converter.Column.{TableColumn, parse_column_type}
use nexgo.Ch.Converter.Column.Default.{ClickhouseType}
use nexgo.Ch.Converter.Column.Default
use nexgo.Ch.Converter.Column.Classes.{enum_with_int_in_a_name}
use nexgo.Ch.Converter.Columns.{get_column_value, zero_for}
use nexgo.Ch.Converter.Columns.Nil.{nil_pointer_is_zero}

abbrev one_if : Bool → ℤ
one_if true = pos 1
one_if false = pos 0

one_if-IsInt64 : (b : Bool) → IsInt64 (one_if b)
one_if-IsInt64 true = omega arith
one_if-IsInt64 false = omega arith

abbrev pub small : Library
small = record {
  Float = Bool;
  Float32 = Bool;
  Decimal = ℤ;
  Time = ℤ;
  zero_float = false;
  float_of_int = λ i. if is_zero i then false else true;
  float_of_float32 = λ f. f;
  int_of_float = one_if;
  int_of_float32 = one_if;
  float_nonzero = λ f. f;
  float32_nonzero = λ f. f;
  format_float = λ f. [];
  format_float32 = λ f. [];
  parse_float = λ s. none;
  zero_decimal = pos 0;
  decimal_of_float = one_if;
  decimal_of_float32 = one_if;
  decimal_of_int = λ i. i;
  parse_decimal = λ s. none;
  unix_milli = λ i. i;
  unix = λ i. i;
  parse_time = λ format s. none;
  midnight = λ t. t;
  add_days = λ n t. t;
  parse_ip = λ s. none;
}

abbrev counter : Bool → TableColumn small Text
counter is_nullable = record {
  name = codes "n";
  original_type = codes "Int64";
  base_type = codes "Int64";
  parsed_type = Default.int;
  is_nullable = is_nullable;
  default_value = none;
  enum_first_value = [];
  container_scan_type = none;
}

convert_int_bounds_example :
    ((i : ℤ) × (convert_int small (uint64 (2 ^ 63)) ≡ ok (int64 i)) × IsInt64 i)
    × ((n : ℕ) → n ≤ max_int64 → convert_int small (uint64 n) ≡ ok (int64 (pos n)))
    × ((n : ℕ) → max_int64 < n → convert_int small (uint64 n) ≡ ok (int64 (pos max_int64)))
convert_int_bounds_example =
    convert_int_bounds small one_if-IsInt64 one_if-IsInt64 (uint64 (2 ^ 63)) tt

enum_with_int_in_a_name_example :
    (parse_column_type small {S = Text}
      (λ t k. none)
      (codes "kind")
      (codes "Enum8('point'=1)")
      []).parsed_type
    ≡ Default.int
enum_with_int_in_a_name_example =
    enum_with_int_in_a_name small (λ t k. none) (codes "kind") (codes "'po") (codes "int")
      (codes "'=1)") [] refl

nil_pointer_is_zero_example :
    (get_column_value small (pos 0) [] ((codes "n", int64_ptr none) ∷ []) (counter true)
      ≡ zero_for small {S = Text} Default.int [] none)
    × (get_column_value small (pos 0) [] ((codes "n", int64_ptr none) ∷ []) (counter true)
        ≢ some nil)
unfolding nexgo.Base.lookup
nil_pointer_is_zero_example =
    nil_pointer_is_zero small (pos 0) [] ((codes "n", int64_ptr none) ∷ []) (counter true)
      (int64_ptr none) refl refl refl
