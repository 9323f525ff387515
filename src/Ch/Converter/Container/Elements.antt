-- ===== src/Ch/Converter/Container/Elements.antt =====
-- The conversion of containers in ch/converter.go: resolveContainerScanType, MapConverter,
-- ArrayConverter, buildMap, buildSlice, convertElem and what turns the input into elements.
-- A result of type Option is `none` where the code panics. The values that the code asks IsValid of
-- are never invalid, so that those branches have no clause.
use nexgo.Base.{
  Text, Bool, true, false, Option, none, some, [], ◌∷◌, ok, err, Result, if◌then◌else◌,
}
use nexgo.Ch.Converter.Value.{Library, Value, Converted, ConvertError}
use nexgo.Ch.Converter.Container.Types.{
  GoType, ptr_type, slice_type, map_type, Go, leaf, pointer, nil_pointer, slice, nil_slice, mapping,
  nil_map, Items, no_items, item, Entries, no_entries, entry, Reflection, byte_items, flat,
}
use nexgo.Ch.Converter.Container.Coerce.{zero_of, coerce_to, scalar_converter_for_type}
use nexgo.Ch.Converter.Column.Default.{ClickhouseType}
use nexgo.Ch.Converter.Column.Default

-- resolveContainerScanType: `scan_type` is the driver's answer, `none` for an error or nil. What it
-- names for a Map or an Array column is a map or slice type without a name of its own.
abbrev has_kind : ClickhouseType → GoType → Bool
has_kind Default.map (map_type k t) = true
has_kind Default.array (slice_type t) = true
has_kind _ _ = false

abbrev pub of_kind : ClickhouseType → Option GoType → Option GoType
of_kind kind none = none
of_kind kind (some t) = if has_kind kind t then some t else none

unfoldable pub resolve_container_scan_type :
    (Text → Option GoType) → Text → ClickhouseType → Option GoType
resolve_container_scan_type scan_type base kind = of_kind kind (scan_type base)

module _ {L : Library} where
  -- derefValue, `none` for an invalid value
  unfoldable pub deref_value : Go L → Option (Go L)
  deref_value (leaf Value.nil) = none
  deref_value (nil_pointer t) = none
  deref_value (pointer t v) = deref_value v
  deref_value v = some v

module _ (L : Library) (R : Reflection L) where
  -- `rv.Kind() == reflect.Map`, with the entries; a nil map has none.
  abbrev pub entries_in : Option (Go L) → Option (Entries L)
  entries_in (some (mapping k t entries)) = some entries
  entries_in (some (nil_map k t)) = some no_entries
  entries_in (some (leaf (Value.other n))) = R.entries_of n
  entries_in _ = none

  -- `rv.Kind() == reflect.Slice || rv.Kind() == reflect.Array`, with the elements
  abbrev pub items_in : Option (Go L) → Option (Items L)
  items_in (some (slice t items)) = some items
  items_in (some (nil_slice t)) = some no_items
  items_in (some (leaf (Value.bytes b))) = some (byte_items b)
  items_in (some (leaf (Value.ip a))) = some (byte_items a)
  items_in (some (leaf (Value.other n))) = R.items_of n
  items_in _ = none

  -- decodeJSON: an object is decoded as a map[string]any, an array as a []any.
  unfoldable pub decode_json : Text → Option (Go L)
  decode_json [] = none
  decode_json (c ∷ s) = R.unmarshal (c ∷ s)

  unfoldable pub normalize_map_input : Go L → Option (Entries L)
  unfolding decode_json deref_value
  normalize_map_input (leaf Value.nil) = none
  normalize_map_input (leaf (Value.string s)) = entries_in (decode_json s)
  normalize_map_input (leaf (Value.bytes b)) = entries_in (decode_json b)
  normalize_map_input v = entries_in (deref_value v)

  unfoldable pub normalize_slice_input : Go L → Option (Items L)
  unfolding decode_json deref_value
  normalize_slice_input (leaf Value.nil) = none
  normalize_slice_input (leaf (Value.string s)) = items_in (decode_json s)
  normalize_slice_input v = items_in (deref_value v)

  abbrev pub then_item : Option (Go L) → Option (Items L) → Option (Items L)
  then_item none rest = none
  then_item (some v) none = none
  then_item (some v) (some items) = some (item v items)

  -- The loop of buildSlice.
  abbrev pub convert_items : (Go L → Option (Go L)) → Items L → Option (Items L)
  convert_items f no_items = some no_items
  convert_items f (item v items) = then_item (f v) (convert_items f items)

  abbrev pub made_slice : GoType → Option (Items L) → Option (Go L)
  made_slice t none = none
  made_slice t (some items) = some (slice t items)

  abbrev pub slice_from : GoType → (Go L → Option (Go L)) → Option (Items L) → Option (Go L)
  slice_from t f none = some (slice t no_items)
  slice_from t f (some items) = made_slice t (convert_items f items)

  -- buildSlice, of the element type and of convertElem at that type
  unfoldable pub build_slice : GoType → (Go L → Option (Go L)) → Go L → Option (Go L)
  unfolding normalize_slice_input
  build_slice t f v = slice_from t f (normalize_slice_input v)

  -- SetMapIndex on a key that may be one: the value is replaced, or the entry added.
  abbrev pub put : Go L → Go L → Entries L → Entries L
  put k v no_entries = entry k v no_entries
  put k v (entry j w rest) =
      let others = put k v rest in if R.same_key k j then entry j v rest else entry j w others

  abbrev pub set_map_index : Go L → Go L → Entries L → Option (Entries L)
  set_map_index k v result = if R.hashable k then some (put k v result) else none

  abbrev pub set_both : Option (Go L) → Option (Go L) → Entries L → Option (Entries L)
  set_both none v result = none
  set_both (some k) none result = none
  set_both (some k) (some v) result = set_map_index k v result

  abbrev pub and_then : Option (Entries L) → (Entries L → Option (Entries L)) → Option (Entries L)
  and_then none rest = none
  and_then (some result) rest = rest result

  -- The loop of buildMap.
  abbrev pub convert_entries :
      (Go L → Option (Go L)) → (Go L → Option (Go L)) → Entries L → Entries L → Option (Entries L)
  convert_entries f g no_entries result = some result
  convert_entries f g (entry k v rest) result =
      and_then (set_both (f k) (g v) result) (convert_entries f g rest)

  abbrev pub made_map : GoType → GoType → Option (Entries L) → Option (Go L)
  made_map k t none = none
  made_map k t (some entries) = some (mapping k t entries)

  abbrev pub map_from :
      GoType
      → GoType
      → (Go L → Option (Go L))
      → (Go L → Option (Go L))
      → Option (Entries L)
      → Option (Go L)
  map_from k t f g none = some (mapping k t no_entries)
  map_from k t f g (some entries) = made_map k t (convert_entries f g entries no_entries)

  -- buildMap, of the types of keys and values and of convertElem at these
  unfoldable pub build_map :
      GoType → GoType → (Go L → Option (Go L)) → (Go L → Option (Go L)) → Go L → Option (Go L)
  unfolding normalize_map_input
  build_map k t f g v = map_from k t f g (normalize_map_input v)

  -- A new pointer to an element.
  abbrev pub pointed : GoType → Option (Go L) → Option (Go L)
  pointed t none = none
  pointed t (some v) = some (pointer t v)

  abbrev pub coerce_converted : GoType → Converted L → Option (Go L)
  unfolding zero_of coerce_to
  coerce_converted t (err e) = some (zero_of L R t)
  coerce_converted t (ok v) = coerce_to L R (leaf v) t

  abbrev pub leaf_elem : GoType → Option (Value L → Converted L) → Go L → Option (Go L)
  unfolding coerce_to
  leaf_elem t none v = coerce_to L R v t
  leaf_elem t (some conv) v = coerce_converted t (conv (flat v))

  unfoldable pub convert_elem : GoType → Go L → Option (Go L)
  unfolding build_map build_slice scalar_converter_for_type coerce_to flat zero_of
  convert_elem (ptr_type t) v = pointed t (convert_elem t v)
  convert_elem (map_type k t) v = build_map k t (convert_elem k) (convert_elem t) v
  convert_elem (slice_type t) v = build_slice t (convert_elem t) v
  convert_elem t v = leaf_elem t (scalar_converter_for_type L t) v

  -- What Convert returns without an error: nil if the type is unknown, `none` for a panic.
  abbrev pub built : Option (Go L) → Option (Result ConvertError (Go L))
  built none = none
  built (some v) = some (ok v)

  -- MapConverter.Convert and ArrayConverter.Convert: the scan type is resolved to a map or a slice.
  unfoldable pub convert_map : Option GoType → Go L → Option (Result ConvertError (Go L))
  unfolding build_map convert_elem
  convert_map (some (map_type k t)) v = built (build_map k t (convert_elem k) (convert_elem t) v)
  convert_map (some t) v = none
  convert_map none v = some (ok (leaf Value.nil))

  unfoldable pub convert_array : Option GoType → Go L → Option (Result ConvertError (Go L))
  unfolding build_slice convert_elem
  convert_array (some (slice_type t)) v = built (build_slice t (convert_elem t) v)
  convert_array (some t) v = none
  convert_array none v = some (ok (leaf Value.nil))
