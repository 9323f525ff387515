-- ===== src/Ch/Converter/Other.antt =====
-- DecimalConverter, DateTimeConverter, DateConverter, EnumConverter and IPConverter of
-- ch/converter.go, and parseTimeString.
use nexgo.Base.{
  ℕ, ℤ, pos, Text, Option, none, some, List, [], ◌∷◌, ok, err, codes, format_uint, parse_int,
}
use nexgo.Ch.Converter.Value.{
  Library, Value, Converted, not_decimal, decimal, decimal_ptr, float32, float32_ptr, float64,
  float64_ptr, int, int32, int32_ptr, int64, int64_ptr, int_ptr, json_number, string, string_ptr,
  time, time_ptr, uint64, uint64_ptr, ip, addr, bytes,
}

-- time.RFC3339 and time.RFC3339Nano, then the formats written out
abbrev pub time_formats : List Text
time_formats =
    codes "2006-01-02T15:04:05Z07:00"
    ∷ codes "2006-01-02T15:04:05.999999999Z07:00"
    ∷ codes "2006-01-02 15:04:05"
    ∷ codes "2006-01-02T15:04:05"
    ∷ codes "2006-01-02 15:04:05.000"
    ∷ codes "2006-01-02T15:04:05.000"
    ∷ codes "2006-01-02 15:04:05.000000"
    ∷ codes "2006-01-02T15:04:05.000000"
    ∷ codes "2006-01-02 15:04:05.000000000"
    ∷ codes "2006-01-02T15:04:05.000000000"
    ∷ codes "2006-01-02"
    ∷ []

abbrev pub date_formats : List Text
date_formats =
    codes "2006-01-02"
    ∷ codes "2006/01/02"
    ∷ codes "20060102"
    ∷ codes "2006-01-02T15:04:05Z07:00"
    ∷ []

-- net.IPv6zero
abbrev pub ipv6_zero : Text
ipv6_zero = 0 ∷ 0 ∷ 0 ∷ 0 ∷ 0 ∷ 0 ∷ 0 ∷ 0 ∷ 0 ∷ 0 ∷ 0 ∷ 0 ∷ 0 ∷ 0 ∷ 0 ∷ 0 ∷ []

module _ (L : Library) where
  -- clickhouseMinTime
  abbrev pub min_time : L.Time
  min_time = L.unix (pos 0)

  abbrev pub first_time : Option L.Time → Option L.Time → Option L.Time
  first_time (some t) rest = some t
  first_time none rest = rest

  -- The first format that the text fits.
  unfoldable pub parse_time_string : List Text → Text → Option L.Time
  parse_time_string [] s = none
  parse_time_string (format ∷ formats) s =
      first_time (L.parse_time format s) (parse_time_string formats s)

  abbrev pub decimal_or_zero : Option L.Decimal → L.Decimal
  decimal_or_zero none = L.zero_decimal
  decimal_or_zero (some d) = d

  abbrev pub time_or_min : Option L.Time → L.Time
  time_or_min none = min_time
  time_or_min (some t) = t

  abbrev pub milli_or_min : Option ℤ → L.Time
  milli_or_min none = min_time
  milli_or_min (some i) = L.unix_milli i

  abbrev pub seconds_or_min : Option ℤ → L.Time
  seconds_or_min none = min_time
  seconds_or_min (some i) = L.unix i

  -- `return decimal.NewFromString(strconv.FormatUint(v, 10))`
  abbrev pub decimal_of_uint64 : ℕ → Converted L
  decimal_of_uint64 v = elim (L.parse_decimal (format_uint v)) [
    | none ↦ err (not_decimal (format_uint v))
    | some d ↦ ok (decimal d)
  ]

  -- DecimalConverter
  unfoldable pub convert_decimal : Value L → Converted L
  convert_decimal (decimal v) = ok (decimal v)
  convert_decimal (decimal_ptr none) = ok (decimal L.zero_decimal)
  convert_decimal (decimal_ptr (some v)) = ok (decimal v)
  convert_decimal (float64 v) = ok (decimal (L.decimal_of_float v))
  convert_decimal (float64_ptr none) = ok (decimal L.zero_decimal)
  convert_decimal (float64_ptr (some v)) = ok (decimal (L.decimal_of_float v))
  convert_decimal (float32 v) = ok (decimal (L.decimal_of_float32 v))
  convert_decimal (float32_ptr none) = ok (decimal L.zero_decimal)
  convert_decimal (float32_ptr (some v)) = ok (decimal (L.decimal_of_float32 v))
  convert_decimal (int64 v) = ok (decimal (L.decimal_of_int v))
  convert_decimal (int64_ptr none) = ok (decimal L.zero_decimal)
  convert_decimal (int64_ptr (some v)) = ok (decimal (L.decimal_of_int v))
  convert_decimal (int v) = ok (decimal (L.decimal_of_int v))
  convert_decimal (int_ptr none) = ok (decimal L.zero_decimal)
  convert_decimal (int_ptr (some v)) = ok (decimal (L.decimal_of_int v))
  convert_decimal (int32 v) = ok (decimal (L.decimal_of_int v))
  convert_decimal (int32_ptr none) = ok (decimal L.zero_decimal)
  convert_decimal (int32_ptr (some v)) = ok (decimal (L.decimal_of_int v))
  convert_decimal (uint64 v) = decimal_of_uint64 v
  convert_decimal (uint64_ptr none) = ok (decimal L.zero_decimal)
  convert_decimal (uint64_ptr (some v)) = decimal_of_uint64 v
  convert_decimal (json_number v) = ok (decimal (decimal_or_zero (L.parse_decimal v)))
  convert_decimal (string v) = ok (decimal (decimal_or_zero (L.parse_decimal v)))
  convert_decimal (string_ptr none) = ok (decimal L.zero_decimal)
  convert_decimal (string_ptr (some v)) = ok (decimal (decimal_or_zero (L.parse_decimal v)))
  convert_decimal _ = ok (decimal L.zero_decimal)

  -- DateTimeConverter; a number is in milliseconds.
  unfoldable pub convert_date_time : Value L → Converted L
  convert_date_time (int64 v) = ok (time (L.unix_milli v))
  convert_date_time (int64_ptr none) = ok (time (min_time))
  convert_date_time (int64_ptr (some v)) = ok (time (L.unix_milli v))
  convert_date_time (int v) = ok (time (L.unix_milli v))
  convert_date_time (int_ptr none) = ok (time (min_time))
  convert_date_time (int_ptr (some v)) = ok (time (L.unix_milli v))
  convert_date_time (json_number v) = ok (time (milli_or_min (parse_int v)))
  convert_date_time (float64 v) = ok (time (L.unix_milli (L.int_of_float v)))
  convert_date_time (float64_ptr none) = ok (time (min_time))
  convert_date_time (float64_ptr (some v)) = ok (time (L.unix_milli (L.int_of_float v)))
  convert_date_time (float32 v) = ok (time (L.unix_milli (L.int_of_float32 v)))
  convert_date_time (float32_ptr none) = ok (time (min_time))
  convert_date_time (float32_ptr (some v)) = ok (time (L.unix_milli (L.int_of_float32 v)))
  convert_date_time (time v) = ok (time v)
  convert_date_time (time_ptr none) = ok (time (min_time))
  convert_date_time (time_ptr (some v)) = ok (time v)
  convert_date_time (string v) = ok (time (time_or_min (parse_time_string time_formats v)))
  convert_date_time (string_ptr none) = ok (time (min_time))
  convert_date_time (string_ptr (some v)) =
      ok (time (time_or_min (parse_time_string time_formats v)))
  convert_date_time _ = ok (time (min_time))

  -- DateConverter; a number is in seconds.
  unfoldable pub convert_date : Value L → Converted L
  convert_date (time v) = ok (time v)
  convert_date (time_ptr none) = ok (time (min_time))
  convert_date (time_ptr (some v)) = ok (time v)
  convert_date (int64 v) = ok (time (L.unix v))
  convert_date (int64_ptr none) = ok (time (min_time))
  convert_date (int64_ptr (some v)) = ok (time (L.unix v))
  convert_date (int v) = ok (time (L.unix v))
  convert_date (int_ptr none) = ok (time (min_time))
  convert_date (int_ptr (some v)) = ok (time (L.unix v))
  convert_date (json_number v) = ok (time (seconds_or_min (parse_int v)))
  convert_date (float64 v) = ok (time (L.unix (L.int_of_float v)))
  convert_date (float64_ptr none) = ok (time (min_time))
  convert_date (float64_ptr (some v)) = ok (time (L.unix (L.int_of_float v)))
  convert_date (string v) = ok (time (time_or_min (parse_time_string date_formats v)))
  convert_date (string_ptr none) = ok (time (min_time))
  convert_date (string_ptr (some v)) = ok (time (time_or_min (parse_time_string date_formats v)))
  convert_date _ = ok (time (min_time))

  -- EnumConverter
  unfoldable pub convert_enum : Text → Value L → Converted L
  convert_enum first (string []) = ok (string first)
  convert_enum first v = ok v

  abbrev pub parsed_ip : Option Text → Text
  parsed_ip none = ipv6_zero
  parsed_ip (some a) = a

  -- IPConverter
  unfoldable pub convert_ip : Value L → Converted L
  convert_ip (ip []) = ok (ip ipv6_zero)
  convert_ip (ip (b ∷ bs)) = ok (ip (b ∷ bs))
  convert_ip (addr none) = ok (ip ipv6_zero)
  convert_ip (addr (some a)) = ok (ip a)
  convert_ip (string []) = ok (ip ipv6_zero)
  convert_ip (string (c ∷ s)) = ok (ip (parsed_ip (L.parse_ip (c ∷ s))))
  convert_ip (bytes []) = ok (ip ipv6_zero)
  convert_ip (bytes (b ∷ bs)) = ok (ip (b ∷ bs))
  convert_ip _ = ok (ip ipv6_zero)
