-- ===== src/Ch/Converter/Value.antt =====
-- The Go values that the converters of ch/converter.go tell apart, and what they use of the
-- standard library's floats and times and of the decimals and the addresses of other packages.
use nexgo.Base.{ℕ, ℤ, Text, Bool, Option, List, Result}

pub record Library : Type 1 where
  -- float64, float32, decimal.Decimal and time.Time
  pub Float : Type 0
  pub Float32 : Type 0
  pub Decimal : Type 0
  pub Time : Type 0
  pub zero_float : Float
  pub float_of_int : ℤ → Float
  pub float_of_float32 : Float32 → Float
  -- int64(v)
  pub int_of_float : Float → ℤ
  pub int_of_float32 : Float32 → ℤ
  -- `v != 0`
  pub float_nonzero : Float → Bool
  pub float32_nonzero : Float32 → Bool
  -- strconv.FormatFloat(v, 'f', -1, 64), the same at 32 bits, and strconv.ParseFloat(s, 64)
  pub format_float : Float → Text
  pub format_float32 : Float32 → Text
  pub parse_float : Text → Option Float
  -- decimal.Zero, NewFromFloat, NewFromFloat32, NewFromInt, NewFromString
  pub zero_decimal : Decimal
  pub decimal_of_float : Float → Decimal
  pub decimal_of_float32 : Float32 → Decimal
  pub decimal_of_int : ℤ → Decimal
  pub parse_decimal : Text → Option Decimal
  -- time.UnixMilli(v), time.Unix(v, 0), time.Parse(format, s)
  pub unix_milli : ℤ → Time
  pub unix : ℤ → Time
  pub parse_time : Text → Text → Option Time
  -- time.Date of the day of a time, at midnight in UTC, and AddDate(0, 0, n)
  pub midnight : Time → Time
  pub add_days : ℤ → Time → Time
  -- net.ParseIP
  pub parse_ip : Text → Option Text

-- A ClickHouse default function, evaluated at insert time.
pub record DefaultFunc : Type 0 where
  pub name : Text
  pub args : List Text

-- A value of type `any`: a pointer may be nil; `other` stands for the values of all other types.
pub data Value (L : Library) : Type 0 where
  nil : Value L
  string : Text → Value L
  string_ptr : Option Text → Value L
  int64 int int32 int16 int8 : ℤ → Value L
  int64_ptr int_ptr int32_ptr int16_ptr int8_ptr : Option ℤ → Value L
  uint64 uint uint32 uint16 uint8 : ℕ → Value L
  uint64_ptr uint_ptr uint32_ptr uint16_ptr uint8_ptr : Option ℕ → Value L
  float64 : L.Float → Value L
  float64_ptr : Option L.Float → Value L
  float32 : L.Float32 → Value L
  float32_ptr : Option L.Float32 → Value L
  bool : Bool → Value L
  bool_ptr : Option Bool → Value L
  json_number : Text → Value L
  decimal : L.Decimal → Value L
  decimal_ptr : Option L.Decimal → Value L
  time : L.Time → Value L
  time_ptr : Option L.Time → Value L
  ip : Text → Value L
  addr : Option Text → Value L
  bytes : Text → Value L
  default_func : DefaultFunc → Value L
  other : ℕ → Value L

-- The error of decimal.NewFromString, the only one that a converter returns.
pub data ConvertError : Type 0 where
  not_decimal : Text → ConvertError

-- What Convert returns.
abbrev pub Converted : Library → Type 0
Converted L = Result ConvertError (Value L)
