-- ===== src/Ch/Converter/Container/Columns.antt =====
-- The values of all columns, those of Map and Array included: getColumnValue and convertValue of
-- ch/writer.go, getZeroValue of ch/converter.go. A result of type Option is `none` where the code
-- panics.
use nexgo.Base.{
  ℕ, Text, Option, none, some, List, [], Dict, lookup, nat_eq, list_eq, Result, ok, err,
}
use nexgo.Ch.Converter.Value.{Library, Value, Converted, ConvertError, default_func}
use nexgo.Ch.Converter.Evaluate.{evaluate}
use nexgo.Ch.Converter.Column.{TableColumn}
use nexgo.Ch.Converter.Columns.{
  Converter, map_converter, array_converter, enum_converter, get_converter, get_zero_value, convert,
}
use nexgo.Ch.Converter.Container.Types.{
  GoType, map_type, slice_type, Go, leaf, slice, mapping, no_items, no_entries, Reflection, flat,
}
use nexgo.Ch.Converter.Container.Elements.{convert_map, convert_array}

module _ (L : Library) (R : Reflection L) where
  -- reflect.MakeMap and reflect.MakeSlice of getZeroValue, whose scan type is a map or a slice.
  abbrev pub empty_container : Option GoType → Go L
  empty_container (some (map_type k t)) = mapping k t no_entries
  empty_container (some (slice_type t)) = slice t no_items
  empty_container _ = leaf Value.nil

  abbrev pub or_empty : Option GoType → Option (Value L) → Go L
  or_empty scan none = empty_container scan
  or_empty scan (some v) = leaf v

  -- getZeroValue
  unfoldable pub zero_value : TableColumn L GoType → Go L
  unfolding get_zero_value
  zero_value col = or_empty col.container_scan_type (get_zero_value L col)

  abbrev pub lifted : Option (Converted L) → Option (Result ConvertError (Go L))
  lifted none = none
  lifted (some (ok v)) = some (ok (leaf v))
  lifted (some (err e)) = some (err e)

  abbrev pub enum_or_same : Text → Go L → Go L
  enum_or_same first (leaf (Value.string [])) = leaf (Value.string first)
  enum_or_same first v = v

  -- Convert of the converter that getConverter returns.
  unfoldable pub convert_with : Converter GoType → Go L → Option (Result ConvertError (Go L))
  unfolding convert convert_map convert_array flat
  convert_with (map_converter scan) v = convert_map L R scan v
  convert_with (array_converter scan) v = convert_array L R scan v
  convert_with (enum_converter first) v = some (ok (enum_or_same first v))
  convert_with c v = lifted (convert L c (flat v))

  abbrev pub or_zero : Go L → Option (Result ConvertError (Go L)) → Option (Go L)
  or_zero zero none = none
  or_zero zero (some (ok v)) = some v
  or_zero zero (some (err e)) = some zero

  -- `col.DefaultValue`, evaluated if it is a function.
  abbrev pub default_value : L.Time → List ℕ → Go L → Option (Value L) → Go L
  default_value now random zero none = zero
  default_value now random zero (some (default_func f)) = leaf (evaluate L f now random)
  default_value now random zero (some v) = leaf v

  abbrev pub value_of : L.Time → List ℕ → TableColumn L GoType → Option (Go L) → Option (Go L)
  value_of now random col none = some (default_value now random (zero_value col) col.default_value)
  value_of now random col (some (leaf Value.nil)) =
      some (default_value now random (zero_value col) col.default_value)
  value_of now random col (some v) = or_zero (zero_value col) (convert_with (get_converter L col) v)

  -- getColumnValue
  unfoldable pub column_value :
      L.Time → List ℕ → Dict Text (Go L) → TableColumn L GoType → Option (Go L)
  unfolding zero_value convert_with get_converter
  column_value now random values col = value_of now random col (lookup col.name values)
