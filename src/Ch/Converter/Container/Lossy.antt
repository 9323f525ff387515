-- ===== src/Ch/Converter/Container/Lossy.antt =====
-- The elements of Map and Array columns that ch/converter.go writes as other values without an error.
use nexgo.Base.{
  ℕ, ◌<◌, ◌≤◌, ◌-◌, ◌%◌, pos, negsuc, true, ◌≡◌, refl, ap, ◌∙◌, some, arith, Text, wrap,
}
use nexgo.Ch.Converter.Value.{Library, Value}
use nexgo.Ch.Converter.Scalar.{
  convert_string, convert_int, convert_float, convert_bool, saturated, max_int64,
}
use nexgo.Ch.Converter.Other.{convert_decimal, convert_date_time, convert_ip, ipv6_zero}
use nexgo.Ch.Converter.Container.Types.{
  GoType, string_type, bool_type, float32_type, float64_type, time_type, decimal_type, ip_type,
  any_type, int_type, int8_type, int16_type, int32_type, int64_type, uint_type, uint8_type,
  uint16_type, uint32_type, uint64_type, ptr_type, slice_type, map_type, other_type, Go, leaf,
  pointer, slice, Reflection, not_convertible, flat,
}
use nexgo.Ch.Converter.Container.Coerce.{
  low_bits, signed_bits, coerce_to, zero_of, after_conversion, scalar_converter_for_type,
}
use nexgo.Ch.Converter.Container.Conforms.{is_key}
use nexgo.Ch.Converter.Container.Kept.{wrap_high}
use nexgo.Ch.Converter.Container.Elements.{convert_elem, pointed}

module _ {L : Library} (R : Reflection L) where
  null_lost :
      (t : GoType)
      → is_key t ≡ true
      → (w : Go L) × (convert_elem L R (ptr_type t) (leaf Value.nil) ≡ some (pointer t w))
  unfolding convert_elem coerce_to flat convert_string convert_int convert_float convert_bool
      convert_decimal convert_date_time scalar_converter_for_type
  null_lost string_type h = (_, refl)
  null_lost bool_type h = (_, refl)
  null_lost float32_type h = (_, refl)
  null_lost float64_type h = (_, refl)
  null_lost time_type h = (_, refl)
  null_lost decimal_type h = (_, refl)
  null_lost int_type h = (_, refl)
  null_lost int8_type h = (_, refl)
  null_lost int16_type h = (_, refl)
  null_lost int32_type h = (_, refl)
  null_lost int64_type h = (_, refl)
  null_lost uint_type h = (_, refl)
  null_lost uint8_type h = (_, refl)
  null_lost uint16_type h = (_, refl)
  null_lost uint32_type h = (_, refl)
  null_lost uint64_type h = (_, refl)
  null_lost ip_type h = cc
  null_lost any_type h = cc
  null_lost (ptr_type t) h = cc
  null_lost (slice_type t) h = cc
  null_lost (map_type k t) h = cc
  null_lost (other_type n) h = cc

  saturated_at : (n : ℕ) → max_int64 < n → saturated n ≡ pos max_int64
  unfolding saturated
  saturated_at n h = ground arith

  -- int8 of an integer from 128 to 255
  int8_wraps : (n : ℕ) → 128 ≤ n → n < 256 → signed_bits 7 (pos n) ≡ negsuc (255 - n)
  unfolding signed_bits low_bits
  int8_wraps n h k =
      ap (wrap 7) (native.Mathlib.Nat.mod-eq_of_lt k) ∙ wrap_high 7 n h k ∙ ap negsuc (omega arith)

  other_lost :
      (n : ℕ) (v : Go L)
      → R.convert (other_type n) v ≡ not_convertible
      → convert_elem L R (ptr_type (other_type n)) v
        ≡ some (pointer (other_type n) (leaf (R.zero_other n)))
  unfolding convert_elem coerce_to zero_of scalar_converter_for_type
  other_lost n (leaf Value.nil) h = refl
  other_lost n (leaf v) h =
      ap (λ c. pointed L R (other_type n) (after_conversion L R (other_type n) c)) h
  other_lost n (slice t items) h =
      ap (λ c. pointed L R (other_type n) (after_conversion L R (other_type n) c)) h
  other_lost n v h = ap (λ c. pointed L R (other_type n) (after_conversion L R (other_type n) c)) h

  -- Elements written as other values without an error: nil, where the driver's type is a pointer to a
  -- scalar, as a pointer to some value of the scalar, to the address `::` where it is an address; an
  -- address behind a pointer as `::`; an unsigned integer above the greatest int64 as that, in a
  -- column of unsigned 64-bit integers too; an int64 in a UInt8 column as its remainder modulo 256,
  -- and one from 128 to 255 in an Int8 column as itself less 256; and a value that is not convertible
  -- to a type such as big.Int, to which the driver's type points, as the zero value of that type.
  pub changed_elements :
      ((t : GoType)
        → is_key t ≡ true
        → (w : Go L) × (convert_elem L R (ptr_type t) (leaf Value.nil) ≡ some (pointer t w)))
      × (convert_elem L R (ptr_type ip_type) (leaf Value.nil)
          ≡ some (pointer ip_type (leaf (Value.ip ipv6_zero))))
      × ((a : Text)
          → convert_elem L R (ptr_type ip_type) (pointer ip_type (leaf (Value.ip a)))
            ≡ some (pointer ip_type (leaf (Value.ip ipv6_zero))))
      × ((n : ℕ)
          → max_int64 < n
          → convert_elem L R uint64_type (leaf (Value.uint64 n))
            ≡ some (leaf (Value.uint64 max_int64)))
      × ((n : ℕ)
          → convert_elem L R uint8_type (leaf (Value.int64 (pos n)))
            ≡ some (leaf (Value.uint8 (n % 256))))
      × ((n : ℕ)
          → convert_elem L R uint8_type (leaf (Value.int64 (negsuc n)))
            ≡ some (leaf (Value.uint8 (255 - n % 256))))
      × ((n : ℕ)
          → 128 ≤ n
          → n < 256
          → convert_elem L R int8_type (leaf (Value.int64 (pos n)))
            ≡ some (leaf (Value.int8 (negsuc (255 - n)))))
      × ((n : ℕ) (v : Go L)
          → R.convert (other_type n) v ≡ not_convertible
          → convert_elem L R (ptr_type (other_type n)) v
            ≡ some (pointer (other_type n) (leaf (R.zero_other n))))
  unfolding convert_elem coerce_to flat convert_int convert_ip low_bits scalar_converter_for_type
  changed_elements = (
    null_lost,
    refl,
    (λ a. refl),
    (λ n h. rw (saturated_at n h) refl),
    (λ n. refl),
    (λ n. ap (λ k. some (leaf (Value.uint8 k))) (omega arith)),
    (λ n h k. ap (λ i. some (leaf (Value.int8 i))) (int8_wraps n h k)),
    other_lost,
  )
