-- ===== src/Ch/Converter/Container/Tests.antt =====
-- The theorems about Map and Array columns at concrete inputs, with a decoder that knows one text.
use nexgo.Base.{
  inl, lookup, nat_eq, list_eq, ℕ, ◌<◌, ◌≤◌, ◌-◌, ◌%◌, ◌≡◌, refl, pos, negsuc, Bool, true, false,
  none, some, [], Text, codes, text_eq, ok, arith, if◌then◌else◌,
}
use nexgo.Ch.Converter.Value.{Value}
use nexgo.Ch.Converter.Scalar.{max_int64}
use nexgo.Ch.Converter.Other.{ipv6_zero}
use nexgo.Ch.Converter.Column.{TableColumn}
use nexgo.Ch.Converter.Column.Default.{parse_default_value_for_type, parse_function_call, is_quoted}
use nexgo.Ch.Converter.Column.Default
use nexgo.Ch.Converter.Container.Columns.{column_value}
use nexgo.Ch.Converter.Container.Absent.{array_column, absent_container}
use nexgo.Ch.Converter.Tests.{small}
use nexgo.Ch.Converter.Container.Types.{
  GoType, string_type, int8_type, uint8_type, uint64_type, any_type, ip_type, ptr_type, slice_type,
  map_type, other_type, Go, leaf, pointer, slice, mapping, no_items, item, no_entries, entry,
  Reflection, not_convertible,
}
use nexgo.Ch.Converter.Container.Elements.{convert_elem, convert_map, convert_array}
use nexgo.Ch.Converter.Container.Conforms.{is_key, Conforms}
use nexgo.Ch.Converter.Container.Kept.{
  kept_string, kept_uint8, table, scalar, filled, one_key, all_seen, convert_kept,
}
use nexgo.Ch.Converter.Container.Lossy.{changed_elements}

abbrev same_text : Go small → Go small → Bool
same_text (leaf (Value.string s)) (leaf (Value.string u)) = text_eq s u
same_text _ _ = false

abbrev is_other : ℕ → Go small → Bool
is_other n (leaf (Value.other m)) = true
is_other n _ = false

abbrev mirror : Reflection small
mirror = record {
  unmarshal = λ s.
      if text_eq s (codes "[true]")
      then some (slice any_type (item (leaf (Value.bool true)) no_items))
      else none;
  float32_of_float = λ f. f;
  zero_float32 = false;
  zero_time = pos 0;
  empty_decimal = pos 0;
  zero_other = Value.other;
  convert = λ t v. not_convertible;
  items_of = λ n. none;
  entries_of = λ n. none;
  hashable = λ v. true;
  same_key = same_text;
}

convert_json_list :
    convert_array small mirror
      (some (slice_type (ptr_type string_type)))
      (leaf (Value.string (codes "[true]")))
    ≡ some (
        ok (
          slice
            (ptr_type string_type)
            (item (pointer string_type (leaf (Value.string (codes "true")))) no_items)))
unfolding convert_array
convert_json_list = refl

convert_kept_example :
    let v = mapping string_type (ptr_type uint8_type) (
      entry
        (leaf (Value.string (codes "a")))
        (pointer uint8_type (leaf (Value.uint8 7)))
        no_entries) in
    ((k e : GoType)
      → map_type string_type (ptr_type uint8_type) ≡ map_type k e
      → convert_map small mirror (some (map_type string_type (ptr_type uint8_type))) v
        ≡ some (ok v))
    × ((e : GoType)
        → map_type string_type (ptr_type uint8_type) ≡ slice_type e
        → convert_array small mirror (some (map_type string_type (ptr_type uint8_type))) v
          ≡ some (ok v))
convert_kept_example = convert_kept mirror (
    table (
      one_key (scalar (kept_string (codes "a"))) (filled (kept_uint8 7 (omega arith))) refl tt
        all_seen))

changed_elements_example :
    ((t : GoType)
      → is_key t ≡ true
      → (w : Go small) × (convert_elem small mirror (ptr_type t) (leaf Value.nil)
          ≡ some (pointer t w)))
    × (convert_elem small mirror (ptr_type ip_type) (leaf Value.nil)
        ≡ some (pointer ip_type (leaf (Value.ip ipv6_zero))))
    × ((a : Text)
        → convert_elem small mirror (ptr_type ip_type) (pointer ip_type (leaf (Value.ip a)))
          ≡ some (pointer ip_type (leaf (Value.ip ipv6_zero))))
    × ((n : ℕ)
        → max_int64 < n
        → convert_elem small mirror uint64_type (leaf (Value.uint64 n))
          ≡ some (leaf (Value.uint64 max_int64)))
    × ((n : ℕ)
        → convert_elem small mirror uint8_type (leaf (Value.int64 (pos n)))
          ≡ some (leaf (Value.uint8 (n % 256))))
    × ((n : ℕ)
        → convert_elem small mirror uint8_type (leaf (Value.int64 (negsuc n)))
          ≡ some (leaf (Value.uint8 (255 - n % 256))))
    × ((n : ℕ)
        → 128 ≤ n
        → n < 256
        → convert_elem small mirror int8_type (leaf (Value.int64 (pos n)))
          ≡ some (leaf (Value.int8 (negsuc (255 - n)))))
    × ((n : ℕ) (v : Go small)
        → mirror.convert (other_type n) v ≡ not_convertible
        → convert_elem small mirror (ptr_type (other_type n)) v
          ≡ some (pointer (other_type n) (leaf (Value.other n))))
changed_elements_example = changed_elements mirror

-- tags Array(String) DEFAULT []
abbrev tags : TableColumn small GoType
tags = record {
  name = codes "tags";
  original_type = codes "Array(String)";
  base_type = codes "Array(String)";
  parsed_type = Default.array;
  is_nullable = false;
  default_value = some (Value.string (codes "[]"));
  enum_first_value = [];
  container_scan_type = some (slice_type string_type);
}

absent_container_example :
    (tags.default_value ≡ none
      → (column_value small mirror (pos 0) [] [] tags ≡ some (slice string_type no_items))
        × Conforms
            (λ n w. is_other n w ≡ true)
            (slice_type string_type)
            (slice string_type no_items))
    × ((d : Text)
        → parse_function_call d ≡ none
        → is_quoted d ≡ false
        → tags.default_value ≡ some (parse_default_value_for_type small d Default.array)
        → (column_value small mirror (pos 0) [] [] tags ≡ some (leaf (Value.string d)))
          × (¬ Conforms
              (λ n w. is_other n w ≡ true)
              (slice_type string_type)
              (leaf (Value.string d))))
unfolding nexgo.Base.lookup
absent_container_example =
    absent_container small mirror (λ n w. is_other n w ≡ true) (pos 0) [] [] tags
      (array_column string_type refl refl) refl (inl refl)

tags_default :
    parse_default_value_for_type small (codes "[]") Default.array ≡ Value.string (codes "[]")
unfolding parse_default_value_for_type
tags_default = refl
