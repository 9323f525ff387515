-- ===== src/Ch/Converter/Container/Shapes.antt =====
-- What the scalar converters of ch/converter.go return, whatever they are given.
use nexgo.Base.{ℕ, ℤ, List, ◌⊎◌, inl, inr, Bool, true, false, ◌≡◌, refl, arith, ok, err}
use nexgo.Ch.Converter.Value.{Library, Value, Converted, ConvertError}
use nexgo.Ch.Converter.Scalar.{convert_string, convert_int, convert_float, convert_bool}
use nexgo.Ch.Converter.Other.{convert_decimal, convert_date_time, convert_ip}

module _ {L : Library} where
  abbrev pub is_string : Converted L → Bool
  is_string (ok (Value.string s)) = true
  is_string _ = false

  abbrev pub is_int64 : Converted L → Bool
  is_int64 (ok (Value.int64 i)) = true
  is_int64 _ = false

  abbrev pub is_float64 : Converted L → Bool
  is_float64 (ok (Value.float64 f)) = true
  is_float64 _ = false

  abbrev pub is_bool : Converted L → Bool
  is_bool (ok (Value.bool b)) = true
  is_bool _ = false

  abbrev pub is_time : Converted L → Bool
  is_time (ok (Value.time t)) = true
  is_time _ = false

  abbrev pub is_ip : Converted L → Bool
  is_ip (ok (Value.ip a)) = true
  is_ip _ = false

  abbrev pub is_decimal : Converted L → Bool
  is_decimal (ok (Value.decimal d)) = true
  is_decimal (err e) = true
  is_decimal _ = false

  pub string_in : (r : Converted L) → is_string r ≡ true → (s : List ℕ) × (r ≡ ok (Value.string s))
  string_in (ok (Value.string s)) h = (s, refl)
  string_in (ok Value.nil) h = cc
  string_in (ok _) h = cc
  string_in (err e) h = cc

  pub int64_in : (r : Converted L) → is_int64 r ≡ true → (i : ℤ) × (r ≡ ok (Value.int64 i))
  int64_in (ok (Value.int64 i)) h = (i, refl)
  int64_in (ok Value.nil) h = cc
  int64_in (ok _) h = cc
  int64_in (err e) h = cc

  pub float64_in :
      (r : Converted L) → is_float64 r ≡ true → (f : L.Float) × (r ≡ ok (Value.float64 f))
  float64_in (ok (Value.float64 f)) h = (f, refl)
  float64_in (ok Value.nil) h = cc
  float64_in (ok _) h = cc
  float64_in (err e) h = cc

  pub bool_in : (r : Converted L) → is_bool r ≡ true → (b : Bool) × (r ≡ ok (Value.bool b))
  bool_in (ok (Value.bool b)) h = (b, refl)
  bool_in (ok Value.nil) h = cc
  bool_in (ok _) h = cc
  bool_in (err e) h = cc

  pub time_in : (r : Converted L) → is_time r ≡ true → (t : L.Time) × (r ≡ ok (Value.time t))
  time_in (ok (Value.time t)) h = (t, refl)
  time_in (ok Value.nil) h = cc
  time_in (ok _) h = cc
  time_in (err e) h = cc

  pub ip_in : (r : Converted L) → is_ip r ≡ true → (a : List ℕ) × (r ≡ ok (Value.ip a))
  ip_in (ok (Value.ip a)) h = (a, refl)
  ip_in (ok Value.nil) h = cc
  ip_in (ok _) h = cc
  ip_in (err e) h = cc

  pub decimal_in :
      (r : Converted L)
      → is_decimal r ≡ true
      → ((d : L.Decimal) × (r ≡ ok (Value.decimal d))) ⊎ ((e : ConvertError) × (r ≡ err e))
  decimal_in (ok (Value.decimal d)) h = inl (d, refl)
  decimal_in (ok Value.nil) h = cc
  decimal_in (ok _) h = cc
  decimal_in (err e) h = inr (e, refl)

module _ (L : Library) where
  pub string_shape : (v : Value L) → is_string (convert_string L v) ≡ true
  unfolding convert_string
  string_shape v = ground arith

  pub int_shape : (v : Value L) → is_int64 (convert_int L v) ≡ true
  unfolding convert_int
  int_shape v = ground arith

  pub float_shape : (v : Value L) → is_float64 (convert_float L v) ≡ true
  unfolding convert_float
  float_shape v = ground arith

  pub bool_shape : (v : Value L) → is_bool (convert_bool L v) ≡ true
  unfolding convert_bool
  bool_shape v = ground arith

  pub time_shape : (v : Value L) → is_time (convert_date_time L v) ≡ true
  unfolding convert_date_time
  time_shape v = ground arith

  pub ip_shape : (v : Value L) → is_ip (convert_ip L v) ≡ true
  unfolding convert_ip
  ip_shape v = ground arith

  pub decimal_shape : (v : Value L) → is_decimal (convert_decimal L v) ≡ true
  unfolding convert_decimal
  decimal_shape v = ground arith
