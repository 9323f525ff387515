-- ===== src/Ch/Converter/Container/Kept.antt =====
-- Values that Map and Array columns of ch/converter.go are given in exactly the type of the column.
use nexgo.Base.{
  ℕ, suc, ◌+◌, ◌≤◌, ◌<◌, ◌^◌, ◌-◌, ℤ, pos, negsuc, wrap, wrap-eq, Bool, true, false, ◌≡◌, refl, ap,
  sym, subst, ◌∙◌, some, ◌∷◌, arith, ok, Text,
}
use nexgo.Ch.Converter.Value.{Library, Value}
use nexgo.Ch.Converter.Scalar.{
  convert_string, convert_int, convert_float, convert_bool, saturated, max_int64,
}
use nexgo.Ch.Converter.Other.{convert_decimal, convert_date_time, convert_ip}
use nexgo.Ch.Converter.Container.Types.{
  GoType, string_type, bool_type, float32_type, float64_type, time_type, decimal_type, ip_type,
  any_type, int_type, int8_type, int16_type, int32_type, int64_type, uint_type, uint8_type,
  uint16_type, uint32_type, uint64_type, ptr_type, slice_type, map_type, Go, leaf, pointer, slice,
  mapping, Items, no_items, item, Entries, no_entries, entry, Reflection, flat,
}
use nexgo.Ch.Converter.Container.Coerce.{
  low_bits, signed_bits, coerce_to, zero_of, scalar_converter_for_type,
}
use nexgo.Ch.Converter.Container.Conforms.{InSigned}
use nexgo.Ch.Converter.Container.Elements.{
  convert_elem, convert_items, made_slice, build_slice, put, set_map_index, convert_entries,
  made_map, build_map, pointed, convert_map, convert_array, built, normalize_slice_input,
  normalize_map_input,
}

low_bits_kept : (w n : ℕ) → n < 2 ^ w → low_bits w (pos n) ≡ n
unfolding low_bits
low_bits_kept w n h = native.Mathlib.Nat.mod-eq_of_lt h

pub wrap_high : (w n : ℕ) → 2 ^ w ≤ n → n < 2 ^ suc w → wrap w n ≡ negsuc (2 ^ suc w - suc n)
unfolding wrap
wrap_high w n h k = ground (arith, native.Mathlib.Nat.mod-eq_of_lt k)

signed_bits_kept : (w : ℕ) (i : ℤ) → 2 ^ suc w ≡ 2 ^ w + 2 ^ w → InSigned w i → signed_bits w i ≡ i
unfolding signed_bits low_bits
signed_bits_kept w (pos n) e h =
    let b : n < 2 ^ suc w = omega (arith, e, h.0) in
    ap (wrap w) (native.Mathlib.Nat.mod-eq_of_lt b) ∙ wrap-eq w n h.0 b
signed_bits_kept w (negsuc n) e h =
    let b : n < 2 ^ suc w = omega (arith, e, h.1) in
    ap (λ r. wrap w (2 ^ suc w - suc r)) (native.Mathlib.Nat.mod-eq_of_lt b)
    ∙ wrap_high w (2 ^ suc w - suc n) (omega (arith, e, h.1)) (omega (arith, e, h.1))
    ∙ ap negsuc (omega (arith, e, h.1))

module _ {L : Library} (R : Reflection L) where
  -- A value of exactly a scalar type other than addresses: an unsigned integer of 64 bits is at most
  -- the greatest int64, and a float32 is one that is the same when it has been a float64.
  pub data KeptScalar : GoType → Value L → Type 0 where
    kept_string : (s : Text) → KeptScalar string_type (Value.string s)
    kept_bool : (b : Bool) → KeptScalar bool_type (Value.bool b)
    kept_float64 : (f : L.Float) → KeptScalar float64_type (Value.float64 f)
    kept_float32 :
        (f : L.Float32)
        → R.float32_of_float (L.float_of_float32 f) ≡ f
        → KeptScalar float32_type (Value.float32 f)
    kept_time : (t : L.Time) → KeptScalar time_type (Value.time t)
    kept_decimal : (d : L.Decimal) → KeptScalar decimal_type (Value.decimal d)
    kept_int64 : (i : ℤ) → KeptScalar int64_type (Value.int64 i)
    kept_int : (i : ℤ) → KeptScalar int_type (Value.int i)
    kept_int32 : (i : ℤ) → InSigned 31 i → KeptScalar int32_type (Value.int32 i)
    kept_int16 : (i : ℤ) → InSigned 15 i → KeptScalar int16_type (Value.int16 i)
    kept_int8 : (i : ℤ) → InSigned 7 i → KeptScalar int8_type (Value.int8 i)
    kept_uint64 : (n : ℕ) → n ≤ max_int64 → KeptScalar uint64_type (Value.uint64 n)
    kept_uint : (n : ℕ) → n ≤ max_int64 → KeptScalar uint_type (Value.uint n)
    kept_uint32 : (n : ℕ) → n < 2 ^ 32 → KeptScalar uint32_type (Value.uint32 n)
    kept_uint16 : (n : ℕ) → n < 2 ^ 16 → KeptScalar uint16_type (Value.uint16 n)
    kept_uint8 : (n : ℕ) → n < 2 ^ 8 → KeptScalar uint8_type (Value.uint8 n)

saturated_kept : (n : ℕ) → n ≤ max_int64 → saturated n ≡ pos n
unfolding saturated
saturated_kept n h = ground arith

module _ {L : Library} (R : Reflection L) where
  -- Given as such or by a pointer.
  scalar_kept :
      {t : GoType} {v : Value L}
      → KeptScalar R t v
      → (convert_elem L R t (leaf v) ≡ some (leaf v))
        × (convert_elem L R t (pointer t (leaf v)) ≡ some (leaf v))
  unfolding convert_elem coerce_to flat convert_string convert_int convert_float convert_bool
      convert_decimal convert_date_time scalar_converter_for_type
  scalar_kept (kept_string s) = (refl, refl)
  scalar_kept (kept_bool b) = (refl, refl)
  scalar_kept (kept_float64 f) = (refl, refl)
  scalar_kept (kept_float32 f h) = (rw h refl, rw h refl)
  scalar_kept (kept_time t) = (refl, refl)
  scalar_kept (kept_decimal d) = (refl, refl)
  scalar_kept (kept_int64 i) = (refl, refl)
  scalar_kept (kept_int i) = (refl, refl)
  scalar_kept (kept_int32 i h) =
      let e = signed_bits_kept 31 i (omega arith) h in (rw e refl, rw e refl)
  scalar_kept (kept_int16 i h) =
      let e = signed_bits_kept 15 i (omega arith) h in (rw e refl, rw e refl)
  scalar_kept (kept_int8 i h) =
      let e = signed_bits_kept 7 i (omega arith) h in (rw e refl, rw e refl)
  scalar_kept (kept_uint64 n h) =
      let e = low_bits_kept 64 n (omega arith) in
      (rw (saturated_kept n h, e) refl, rw (saturated_kept n h, e) refl)
  scalar_kept (kept_uint n h) =
      let e = low_bits_kept 64 n (omega arith) in
      (rw (saturated_kept n h, e) refl, rw (saturated_kept n h, e) refl)
  scalar_kept (kept_uint32 n h) = let e = low_bits_kept 32 n h in (rw e refl, rw e refl)
  scalar_kept (kept_uint16 n h) = let e = low_bits_kept 16 n h in (rw e refl, rw e refl)
  scalar_kept (kept_uint8 n h) = let e = low_bits_kept 8 n h in (rw e refl, rw e refl)

  -- The key is none of those of the entries.
  abbrev pub Fresh : Go L → Entries L → Type 0
  Fresh k no_entries = Unit
  Fresh k (entry j w rest) = (R.same_key j k ≡ false) × Fresh k rest

  -- A value of exactly a type of scalars, pointers to scalars, interfaces, slices and maps. No
  -- pointer, slice or map is nil, no pointer is to an address, no address is empty; the keys of a map
  -- are hashable and different. What is in an interface may be any value.
  mutual
    pub data Kept : GoType → Go L → Type 0 where
      scalar : {t : GoType} {v : Value L} → KeptScalar R t v → Kept t (leaf v)
      address : (b : ℕ) (bs : Text) → Kept ip_type (leaf (Value.ip (b ∷ bs)))
      interface : (v : Go L) → Kept any_type v
      filled :
          {t : GoType} {v : Value L} → KeptScalar R t v → Kept (ptr_type t) (pointer t (leaf v))
      list :
          {t : GoType} {items : Items L} → KeptItems t items → Kept (slice_type t) (slice t items)
      table :
          {k t : GoType} {entries : Entries L}
          → KeptEntries k t entries
          → Kept (map_type k t) (mapping k t entries)

    pub data KeptItems : GoType → Items L → Type 0 where
      none_left : {t : GoType} → KeptItems t no_items
      one_more :
          {t : GoType} {v : Go L} {rest : Items L}
          → Kept t v
          → KeptItems t rest
          → KeptItems t (item v rest)

    pub data KeptEntries : GoType → GoType → Entries L → Type 0 where
      all_seen : {k t : GoType} → KeptEntries k t no_entries
      one_key :
          {k t : GoType} {j v : Go L} {rest : Entries L}
          → Kept k j
          → Kept t v
          → R.hashable j ≡ true
          → Fresh j rest
          → KeptEntries k t rest
          → KeptEntries k t (entry j v rest)

  -- Entries behind others.
  abbrev behind : Entries L → Entries L → Entries L
  behind no_entries last = last
  behind (entry k v rest) last = entry k v (behind rest last)

  abbrev NoneOf : Entries L → Entries L → Type 0
  NoneOf no_entries others = Unit
  NoneOf (entry k v rest) others = Fresh k others × NoneOf rest others

  behind_nil : (es : Entries L) → behind es no_entries ≡ es
  behind_nil no_entries = refl
  behind_nil (entry k v rest) = ap (entry k v) (behind_nil rest)

  behind_assoc : (es fs gs : Entries L) → behind (behind es fs) gs ≡ behind es (behind fs gs)
  behind_assoc no_entries fs gs = refl
  behind_assoc (entry k v rest) fs gs = ap (entry k v) (behind_assoc rest fs gs)

  put_new :
      (acc : Entries L) (j v : Go L) (rest : Entries L)
      → NoneOf acc (entry j v rest)
      → put L R j v acc ≡ behind acc (entry j v no_entries)
  put_new no_entries j v rest h = refl
  put_new (entry k w acc) j v rest h = rw (h.0.0) (ap (entry k w) (put_new acc j v rest h.1))

  NoneOf-behind :
      (acc : Entries L) (j v : Go L) (rest : Entries L)
      → NoneOf acc (entry j v rest)
      → Fresh j rest
      → NoneOf (behind acc (entry j v no_entries)) rest
  NoneOf-behind no_entries j v rest h f = (f, tt)
  NoneOf-behind (entry k w acc) j v rest h f = (h.0.1, NoneOf-behind acc j v rest h.1 f)

  set_new :
      (j v : Go L) (acc rest : Entries L)
      → R.hashable j ≡ true
      → NoneOf acc (entry j v rest)
      → set_map_index L R j v acc ≡ some (behind acc (entry j v no_entries))
  set_new j v acc rest e h = rw e (ap some (put_new acc j v rest h))

  any_kept : (v : Go L) → coerce_to L R v any_type ≡ some v
  unfolding coerce_to zero_of
  any_kept (leaf Value.nil) = refl
  any_kept (leaf v) = refl
  any_kept (slice t items) = refl
  any_kept v = refl

  mutual
    unfolding convert_elem build_slice build_map normalize_slice_input normalize_map_input coerce_to
        flat convert_ip scalar_converter_for_type

    kept_lem : {t : GoType} {v : Go L} → Kept t v → convert_elem L R t v ≡ some v
    kept_lem (scalar k) = (scalar_kept k).0
    kept_lem (address b bs) = refl
    kept_lem (interface v) = any_kept v
    kept_lem (filled {t} k) = ap (pointed L R t) (scalar_kept k).1
    kept_lem (list {t} items) = ap (made_slice L R t) (items_kept items)
    kept_lem (table {k} {t} entries) = ap (made_map L R k t) (entries_kept entries no_entries tt)

    items_kept :
        {t : GoType} {items : Items L}
        → KeptItems t items
        → convert_items L R (convert_elem L R t) items ≡ some items
    items_kept none_left = refl
    items_kept (one_more k ks) = rw (kept_lem k, items_kept ks) refl

    entries_kept :
        {k t : GoType} {entries : Entries L}
        → KeptEntries k t entries
        → (acc : Entries L) → NoneOf acc entries
        → convert_entries L R (convert_elem L R k) (convert_elem L R t) entries acc
          ≡ some (behind acc entries)
    entries_kept all_seen acc h = ap some (sym (behind_nil acc))
    entries_kept (one_key {k} {t} {j} {v} {rest} p q e f more) acc h =
        rw (kept_lem p, kept_lem q, set_new j v acc rest e h)
          (entries_kept more (behind acc (entry j v no_entries)) (NoneOf-behind acc j v rest h f)
            ∙ ap some (behind_assoc acc (entry j v no_entries) rest))

  -- A value of exactly the type of a Map or an Array column, built of scalars, pointers to scalars,
  -- interfaces, slices and maps, is written as it is, in its order, if outside of its interfaces no
  -- pointer, slice or map is nil, no pointer is to an address (net.IP), no address is empty, no
  -- unsigned integer is above the greatest int64, every float32 is the same when it has been a
  -- float64, every sized integer is in the range of its type, and the keys of each map are hashable
  -- and different. What is in an interface may be any value.
  pub convert_kept :
      {t : GoType} {v : Go L}
      → Kept t v
      → ((k e : GoType) → t ≡ map_type k e → convert_map L R (some t) v ≡ some (ok v))
        × ((e : GoType) → t ≡ slice_type e → convert_array L R (some t) v ≡ some (ok v))
  unfolding convert_map convert_array convert_elem
  convert_kept {t} {v} kept = (as_map, as_array)
    where
      as_map : (k e : GoType) → t ≡ map_type k e → convert_map L R (some t) v ≡ some (ok v)
      as_map k e p =
          let written : convert_elem L R (map_type k e) v ≡ some v =
            subst (λ u. convert_elem L R u v ≡ some v) p (kept_lem kept) in
          rw p (ap (built L R) written)

      as_array : (e : GoType) → t ≡ slice_type e → convert_array L R (some t) v ≡ some (ok v)
      as_array e p =
          let written : convert_elem L R (slice_type e) v ≡ some v =
            subst (λ u. convert_elem L R u v ≡ some v) p (kept_lem kept) in
          rw p (ap (built L R) written)
