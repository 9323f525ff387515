-- ===== src/Ch/Converter/Container/Types.antt =====
-- The types that the driver names for Map and Array columns of ch/converter.go, and the Go values
-- that these columns are given and hold. What the code uses of the packages reflect and
-- encoding/json besides is a parameter.
use nexgo.Base.{ℕ, Text, Bool, Option, none, some, [], ◌∷◌}
use nexgo.Ch.Converter.Value.{Library, Value}

-- A reflect.Type: `any_type` is the empty interface, `other_type` stands for all types that neither
-- scalarConverterForType nor convertElem tells apart, such as big.Int and uuid.UUID.
pub data GoType : Type 0 where
  string_type bool_type float32_type float64_type time_type decimal_type ip_type any_type : GoType
  int_type int8_type int16_type int32_type int64_type : GoType
  uint_type uint8_type uint16_type uint32_type uint64_type : GoType
  ptr_type slice_type : GoType → GoType
  map_type : GoType → GoType → GoType
  other_type : ℕ → GoType

-- A value of type `any`, down to what it points to and holds. The entries of a map stand in the
-- order in which a range over it meets them.
mutual
  pub data Go (L : Library) : Type 0 where
    leaf : Value L → Go L
    pointer : GoType → Go L → Go L
    nil_pointer : GoType → Go L
    slice : GoType → Items L → Go L
    nil_slice : GoType → Go L
    mapping : GoType → GoType → Entries L → Go L
    nil_map : GoType → GoType → Go L

  pub data Items (L : Library) : Type 0 where
    no_items : Items L
    item : Go L → Items L → Items L

  pub data Entries (L : Library) : Type 0 where
    no_entries : Entries L
    entry : Go L → Go L → Entries L → Entries L

-- What Type.ConvertibleTo and Value.Convert make of a value; Convert panics where a slice is shorter
-- than the array that it is converted to.
pub data Conversion (L : Library) : Type 0 where
  not_convertible panics : Conversion L
  converted : Go L → Conversion L

pub record Reflection (L : Library) : Type 0 where
  -- json.Unmarshal into an `any`, without its error
  pub unmarshal : Text → Option (Go L)
  -- float32(v)
  pub float32_of_float : L.Float → L.Float32
  -- float32(0), time.Time{}, decimal.Decimal{} and the zero value of another type
  pub zero_float32 : L.Float32
  pub zero_time : L.Time
  pub empty_decimal : L.Decimal
  pub zero_other : ℕ → Value L
  -- the conversion of a value to a type, assignment included
  pub convert : GoType → Go L → Conversion L
  -- the elements of a value of another slice or array type, the entries of one of another map type
  pub items_of : ℕ → Option (Items L)
  pub entries_of : ℕ → Option (Entries L)
  -- whether a value may be a key of a map, and whether two values are the same key
  pub hashable : Go L → Bool
  pub same_key : Go L → Go L → Bool

module _ {L : Library} where
  -- The elements of a []byte.
  abbrev pub byte_items : Text → Items L
  byte_items [] = no_items
  byte_items (b ∷ bs) = item (leaf (Value.uint8 b)) (byte_items bs)

  -- The value as the type switches of the scalar converters see it.
  unfoldable pub flat : Go L → Value L
  flat (leaf v) = v
  flat (pointer t (leaf (Value.string v))) = Value.string_ptr (some v)
  flat (pointer t (leaf (Value.int64 v))) = Value.int64_ptr (some v)
  flat (pointer t (leaf (Value.int v))) = Value.int_ptr (some v)
  flat (pointer t (leaf (Value.int32 v))) = Value.int32_ptr (some v)
  flat (pointer t (leaf (Value.int16 v))) = Value.int16_ptr (some v)
  flat (pointer t (leaf (Value.int8 v))) = Value.int8_ptr (some v)
  flat (pointer t (leaf (Value.uint64 v))) = Value.uint64_ptr (some v)
  flat (pointer t (leaf (Value.uint v))) = Value.uint_ptr (some v)
  flat (pointer t (leaf (Value.uint32 v))) = Value.uint32_ptr (some v)
  flat (pointer t (leaf (Value.uint16 v))) = Value.uint16_ptr (some v)
  flat (pointer t (leaf (Value.uint8 v))) = Value.uint8_ptr (some v)
  flat (pointer t (leaf (Value.float64 v))) = Value.float64_ptr (some v)
  flat (pointer t (leaf (Value.float32 v))) = Value.float32_ptr (some v)
  flat (pointer t (leaf (Value.bool v))) = Value.bool_ptr (some v)
  flat (pointer t (leaf (Value.decimal v))) = Value.decimal_ptr (some v)
  flat (pointer t (leaf (Value.time v))) = Value.time_ptr (some v)
  flat (nil_pointer GoType.string_type) = Value.string_ptr none
  flat (nil_pointer GoType.int64_type) = Value.int64_ptr none
  flat (nil_pointer GoType.int_type) = Value.int_ptr none
  flat (nil_pointer GoType.int32_type) = Value.int32_ptr none
  flat (nil_pointer GoType.int16_type) = Value.int16_ptr none
  flat (nil_pointer GoType.int8_type) = Value.int8_ptr none
  flat (nil_pointer GoType.uint64_type) = Value.uint64_ptr none
  flat (nil_pointer GoType.uint_type) = Value.uint_ptr none
  flat (nil_pointer GoType.uint32_type) = Value.uint32_ptr none
  flat (nil_pointer GoType.uint16_type) = Value.uint16_ptr none
  flat (nil_pointer GoType.uint8_type) = Value.uint8_ptr none
  flat (nil_pointer GoType.float64_type) = Value.float64_ptr none
  flat (nil_pointer GoType.float32_type) = Value.float32_ptr none
  flat (nil_pointer GoType.bool_type) = Value.bool_ptr none
  flat (nil_pointer GoType.decimal_type) = Value.decimal_ptr none
  flat (nil_pointer GoType.time_type) = Value.time_ptr none
  flat _ = Value.other 0
