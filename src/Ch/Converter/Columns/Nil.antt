-- ===== src/Ch/Converter/Columns/Nil.antt =====
-- Nil pointers and absent values in the columns of ch/writer.go.
use nexgo.Base.{
  ℕ, pos, ◌≡◌, ◌≢◌, refl, Text, Bool, true, false, Option, none, some, List, [], Dict, lookup,
  nat_eq, list_eq, arith, ok, sym, ◌∙◌,
}
use nexgo.Ch.Converter.Value.{Library, Value, nil}
use nexgo.Ch.Converter.Scalar.{convert_string, convert_int, convert_float, convert_bool}
use nexgo.Ch.Converter.Other.{
  convert_decimal, convert_date_time, convert_date, convert_ip, min_time, ipv6_zero,
}
use nexgo.Ch.Converter.Column.{TableColumn}
use nexgo.Ch.Converter.Column.Default.{
  ClickhouseType, unknown, string, int, float, decimal, bool, date_time, enum, ip, date, map, array,
}
use nexgo.Ch.Converter.Columns.{
  converted_or_zero, zero_for, converter_for, convert, convert_value, get_column_value, value_for,
}

-- A nil pointer, of any of the pointer types that the converters know.
abbrev pub is_nil_pointer : {L : Library} → Value L → Bool
is_nil_pointer (Value.string_ptr none) = true
is_nil_pointer (Value.int64_ptr none) = true
is_nil_pointer (Value.int_ptr none) = true
is_nil_pointer (Value.int32_ptr none) = true
is_nil_pointer (Value.int16_ptr none) = true
is_nil_pointer (Value.int8_ptr none) = true
is_nil_pointer (Value.uint64_ptr none) = true
is_nil_pointer (Value.uint_ptr none) = true
is_nil_pointer (Value.uint32_ptr none) = true
is_nil_pointer (Value.uint16_ptr none) = true
is_nil_pointer (Value.uint8_ptr none) = true
is_nil_pointer (Value.float64_ptr none) = true
is_nil_pointer (Value.float32_ptr none) = true
is_nil_pointer (Value.bool_ptr none) = true
is_nil_pointer (Value.decimal_ptr none) = true
is_nil_pointer (Value.time_ptr none) = true
is_nil_pointer _ = false

-- The scalar types whose converters know what a nil pointer is.
abbrev pub is_scalar : ClickhouseType → Bool
is_scalar unknown = false
is_scalar enum = false
is_scalar map = false
is_scalar array = false
is_scalar _ = true

module _ (L : Library) where
  convert_string_nil :
      (v : Value L) → is_nil_pointer v ≡ true → convert_string L v ≡ ok (Value.string [])
  unfolding convert_string
  convert_string_nil v h = ground arith

  convert_int_nil :
      (v : Value L) → is_nil_pointer v ≡ true → convert_int L v ≡ ok (Value.int64 (pos 0))
  unfolding convert_int
  convert_int_nil v h = ground arith

  convert_float_nil :
      (v : Value L) → is_nil_pointer v ≡ true → convert_float L v ≡ ok (Value.float64 L.zero_float)
  unfolding convert_float
  convert_float_nil v h = ground arith

  convert_decimal_nil :
      (v : Value L)
      → is_nil_pointer v ≡ true
      → convert_decimal L v ≡ ok (Value.decimal L.zero_decimal)
  unfolding convert_decimal
  convert_decimal_nil v h = ground arith

  convert_bool_nil :
      (v : Value L) → is_nil_pointer v ≡ true → convert_bool L v ≡ ok (Value.bool false)
  unfolding convert_bool
  convert_bool_nil v h = ground arith

  convert_date_time_nil :
      (v : Value L) → is_nil_pointer v ≡ true → convert_date_time L v ≡ ok (Value.time (min_time L))
  unfolding convert_date_time
  convert_date_time_nil v h = ground arith

  convert_date_nil :
      (v : Value L) → is_nil_pointer v ≡ true → convert_date L v ≡ ok (Value.time (min_time L))
  unfolding convert_date
  convert_date_nil v h = ground arith

  convert_ip_nil :
      (v : Value L) → is_nil_pointer v ≡ true → convert_ip L v ≡ ok (Value.ip ipv6_zero)
  unfolding convert_ip
  convert_ip_nil v h = ground arith

module _ (L : Library) {S : Type 0} where
  converted_nil :
      (k : ClickhouseType) (first : Text) (scan : Option S) (zero : Option (Value L)) (v : Value L)
      → is_scalar k ≡ true
      → is_nil_pointer v ≡ true
      → converted_or_zero L zero (convert L (converter_for k first scan) v)
        ≡ zero_for L k first scan
  unfolding convert
  converted_nil string first scan zero v h n = rw (convert_string_nil L v n)
  converted_nil int first scan zero v h n = rw (convert_int_nil L v n)
  converted_nil float first scan zero v h n = rw (convert_float_nil L v n)
  converted_nil decimal first scan zero v h n = rw (convert_decimal_nil L v n)
  converted_nil bool first scan zero v h n = rw (convert_bool_nil L v n)
  converted_nil date_time first scan zero v h n = rw (convert_date_time_nil L v n)
  converted_nil date first scan zero v h n = rw (convert_date_nil L v n)
  converted_nil ip first scan zero v h n = rw (convert_ip_nil L v n)
  converted_nil unknown first scan zero v h n = cc
  converted_nil enum first scan zero v h n = cc
  converted_nil map first scan zero v h n = cc
  converted_nil array first scan zero v h n = cc

  value_of_nil_pointer :
      (now : L.Time) (random : List ℕ) (col : TableColumn L S) (v : Value L)
      → is_nil_pointer v ≡ true
      → value_for L now random col (some v) ≡ convert_value L v col
  value_of_nil_pointer now random col nil h = cc
  value_of_nil_pointer now random col _ h = refl

  -- For a column of a scalar type other than Enum: a value that is a nil pointer is written as the
  -- zero value of the type, whether the column is Nullable or not, and never as NULL.
  pub nil_pointer_is_zero :
      (now : L.Time) (random : List ℕ) (values : Dict Text (Value L)) (col : TableColumn L S)
      (v : Value L)
      → is_scalar col.parsed_type ≡ true
      → is_nil_pointer v ≡ true
      → lookup col.name values ≡ some v
      → (get_column_value L now random values col
          ≡ zero_for L col.parsed_type col.enum_first_value col.container_scan_type)
        × (get_column_value L now random values col ≢ some nil)
  unfolding get_column_value
  nil_pointer_is_zero now random values col v h n e = (written, never_null)
    where
      written :
          get_column_value L now random values col
          ≡ zero_for L col.parsed_type col.enum_first_value col.container_scan_type
      written = rw e (
          value_of_nil_pointer now random col v n
          ∙ unfold convert_value in
            converted_nil col.parsed_type col.enum_first_value col.container_scan_type _ v h n)

      scalar_zero :
          (k : ClickhouseType) (first : Text) (scan : Option S)
          → is_scalar k ≡ true
          → zero_for L k first scan ≢ some nil
      scalar_zero k first scan h = ground arith

      never_null : get_column_value L now random values col ≢ some nil
      never_null m = scalar_zero col.parsed_type _ _ h (sym written ∙ m)

  -- A column with no default, whose value is absent, gets NULL if it is Nullable and the zero value
  -- of its type otherwise.
  absent_value :
      (now : L.Time) (random : List ℕ) (values : Dict Text (Value L)) (col : TableColumn L S)
      → lookup col.name values ≡ none
      → col.default_value ≡ none
      → (col.is_nullable ≡ true → get_column_value L now random values col ≡ some nil)
        × (col.is_nullable ≡ false
            → get_column_value L now random values col
              ≡ zero_for L col.parsed_type col.enum_first_value col.container_scan_type)
  unfolding get_column_value
  absent_value now random values col e d = ((λ n. rw (e, d, n)), λ n. rw (e, d, n))
