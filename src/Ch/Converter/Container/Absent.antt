-- ===== src/Ch/Converter/Container/Absent.antt =====
-- Map and Array columns with no value in a row, in getColumnValue of ch/writer.go.
use nexgo.Base.{
  ℕ, Text, Bool, true, false, ◌≡◌, refl, ap, ◌∙◌, Option, none, some, List, Dict, lookup, nat_eq,
  list_eq, if◌then◌else◌, ◌⊎◌, inl, inr,
}
use nexgo.Ch.Converter.Value.{Library, Value, DefaultFunc, default_func}
use nexgo.Ch.Converter.Column.{TableColumn}
use nexgo.Ch.Converter.Column.Default.{
  ClickhouseType, parse_default_value_for_type, parse_function_call, is_quoted, default_by_type,
  trim_quotes,
}
use nexgo.Ch.Converter.Column.Default
use nexgo.Ch.Converter.Columns.{get_zero_value}
use nexgo.Ch.Converter.Container.Types.{
  GoType, map_type, slice_type, Go, leaf, slice, mapping, no_items, no_entries, Reflection,
}
use nexgo.Ch.Converter.Container.Conforms.{Conforms}
use nexgo.Ch.Converter.Container.Columns.{zero_value, value_of, default_value, column_value}

-- A Map or an Array column whose type is resolved, and the empty value of its type.
pub data IsContainer {L : Library} : TableColumn L GoType → GoType → Go L → Type 0 where
  map_column :
      {col : TableColumn L GoType} (k t : GoType)
      → col.parsed_type ≡ Default.map
      → col.container_scan_type ≡ some (map_type k t)
      → IsContainer col (map_type k t) (mapping k t no_entries)
  array_column :
      {col : TableColumn L GoType} (t : GoType)
      → col.parsed_type ≡ Default.array
      → col.container_scan_type ≡ some (slice_type t)
      → IsContainer col (slice_type t) (slice t no_items)

module _ (L : Library) (R : Reflection L) (IsOther : ℕ → Go L → Type 0) where
  zero_of_container :
      {col : TableColumn L GoType} {t : GoType} {empty : Go L}
      → IsContainer col t empty
      → col.is_nullable ≡ false
      → zero_value L R col ≡ empty
  unfolding zero_value get_zero_value
  zero_of_container (map_column k t p q) n = rw (n, p, q) refl
  zero_of_container (array_column t p q) n = rw (n, p, q) refl

  misfit :
      {col : TableColumn L GoType} {t : GoType} {empty : Go L} (d : Text)
      → IsContainer col t empty
      → ¬ Conforms IsOther t (leaf (Value.string d))
  misfit d (map_column k t p q) = λ h. h
  misfit d (array_column t p q) = λ h. h

  fits :
      {col : TableColumn L GoType} {t : GoType} {empty : Go L}
      → IsContainer col t empty
      → Conforms IsOther t empty
  fits (map_column k t p q) = (refl, refl, tt)
  fits (array_column t p q) = (refl, tt)

  value_of_absent :
      (now : L.Time) (random : List ℕ) (col : TableColumn L GoType) (o : Option (Go L))
      → (o ≡ none) ⊎ (o ≡ some (leaf Value.nil))
      → value_of L R now random col o
        ≡ some (default_value L R now random (zero_value L R col) col.default_value)
  value_of_absent now random col o (inl e) = rw e refl
  value_of_absent now random col o (inr e) = rw e refl

  text_branch :
      (d : Text) (k : ClickhouseType) (o : Option DefaultFunc) (b : Bool)
      → o ≡ none
      → b ≡ false
      → (k ≡ Default.map) ⊎ (k ≡ Default.array)
      → elim o [
        | some f ↦ default_func f
        | none ↦ if b then Value.string (trim_quotes d) else default_by_type L d k
      ]
        ≡ Value.string d
  unfolding default_by_type
  text_branch d k none false p q (inl e) = rw e refl
  text_branch d k none false p q (inr e) = rw e refl
  text_branch d k none true p q e = cc
  text_branch d k (some f) b p q e = cc

  default_text :
      (d : Text) (k : ClickhouseType)
      → parse_function_call d ≡ none
      → is_quoted d ≡ false
      → (k ≡ Default.map) ⊎ (k ≡ Default.array)
      → parse_default_value_for_type L d k ≡ Value.string d
  unfolding parse_default_value_for_type
  default_text d k p q e = text_branch d k (parse_function_call d) (is_quoted d) p q e

  -- A Map or an Array column that is resolved and not Nullable, where a row has no value or nil: with
  -- no default, the empty value of exactly the scan type is written; with a default, which is the
  -- text of the expression if that is neither a supported call nor quoted, the text itself is
  -- written, which is no value of the scan type.
  pub absent_container :
      {t : GoType} {empty : Go L} (now : L.Time) (random : List ℕ) (values : Dict Text (Go L))
      (col : TableColumn L GoType)
      → IsContainer col t empty
      → col.is_nullable ≡ false
      → (lookup col.name values ≡ none) ⊎ (lookup col.name values ≡ some (leaf Value.nil))
      → (col.default_value ≡ none
          → (column_value L R now random values col ≡ some empty) × Conforms IsOther t empty)
        × ((d : Text)
            → parse_function_call d ≡ none
            → is_quoted d ≡ false
            → col.default_value ≡ some (parse_default_value_for_type L d col.parsed_type)
            → (column_value L R now random values col ≡ some (leaf (Value.string d)))
              × (¬ Conforms IsOther t (leaf (Value.string d))))
  unfolding column_value
  absent_container now random values col c n absent = (
    (λ e. (
      value_of_absent now random col (lookup col.name values) absent
          ∙ ap (λ o. some (default_value L R now random (zero_value L R col) o)) e
          ∙ ap some (zero_of_container c n),
      fits c,
    )),
    (λ d p q e. (
      value_of_absent now random col (lookup col.name values) absent
          ∙ ap (λ o. some (default_value L R now random (zero_value L R col) o))
              (e ∙ ap some (default_text d col.parsed_type p q (kind c))),
      misfit d c,
    )),
  )
    where
      kind :
          {t : GoType} {empty : Go L}
          → IsContainer col t empty
          → (col.parsed_type ≡ Default.map) ⊎ (col.parsed_type ≡ Default.array)
      kind (map_column k t p q) = inl p
      kind (array_column t p q) = inr p
