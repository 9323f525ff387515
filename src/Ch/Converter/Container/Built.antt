-- ===== src/Ch/Converter/Container/Built.antt =====
-- The types of what buildSlice and buildMap of ch/converter.go build, of elements of known types.
use nexgo.Base.{ℕ, true, ◌≡◌, refl, Option, none, some, Bool-cases, inl, inr}
use nexgo.Ch.Converter.Value.{Library}
use nexgo.Ch.Converter.Container.Types.{
  GoType, ptr_type, slice_type, map_type, Go, Items, no_items, item, Entries, no_entries, entry,
  Reflection,
}
use nexgo.Ch.Converter.Container.Elements.{
  convert_items, then_item, made_slice, slice_from, build_slice, put, set_both, and_then,
  convert_entries, made_map, map_from, build_map, pointed, normalize_slice_input,
  normalize_map_input,
}
use nexgo.Ch.Converter.Container.Conforms.{Ensures, is_key, IsPlain, AllItems, AllEntries, Conforms}

module _ {L : Library} (R : Reflection L) (IsOther : ℕ → Go L → Type 0)
    (key_law : (k : GoType) (v : Go L)
      → is_key k ≡ true
      → Conforms IsOther k v
      → R.hashable v ≡ true) where
  items_typed :
      (Safe : Type 0) (P : Go L → Type 0) (f : Go L → Option (Go L))
      → ((v : Go L) → Ensures Safe P (f v))
      → (items : Items L) → Ensures Safe (AllItems IsOther P) (convert_items L R f items)
  items_typed Safe P f h no_items = tt
  items_typed Safe P f h (item v items) =
      both (f v) (convert_items L R f items) (h v) (items_typed Safe P f h items)
    where
      both :
          (e : Option (Go L)) (rest : Option (Items L))
          → Ensures Safe P e
          → Ensures Safe (AllItems IsOther P) rest
          → Ensures Safe (AllItems IsOther P) (then_item L R e rest)
      both none rest p q = p
      both (some w) none p q = q
      both (some w) (some others) p q = (p, q)

  pub slice_typed :
      (t : GoType) (f : Go L → Option (Go L))
      → ((v : Go L) → Ensures (IsPlain t) (Conforms IsOther t) (f v))
      → (v : Go L) → Ensures (IsPlain t) (Conforms IsOther (slice_type t)) (build_slice L R t f v)
  unfolding build_slice
  slice_typed t f h v = from (normalize_slice_input L R v)
    where
      made :
          (items : Option (Items L))
          → Ensures (IsPlain t) (AllItems IsOther (Conforms IsOther t)) items
          → Ensures (IsPlain t) (Conforms IsOther (slice_type t)) (made_slice L R t items)
      made none p = p
      made (some items) p = (refl, p)

      from :
          (items : Option (Items L))
          → Ensures (IsPlain t) (Conforms IsOther (slice_type t)) (slice_from L R t f items)
      from none = (refl, tt)
      from (some items) =
          made (convert_items L R f items) (items_typed (IsPlain t) (Conforms IsOther t) f h items)

  put_typed :
      (P Q : Go L → Type 0) (k v : Go L) (entries : Entries L)
      → P k
      → Q v
      → AllEntries IsOther P Q entries
      → AllEntries IsOther P Q (put L R k v entries)
  put_typed P Q k v no_entries p q h = (p, q, tt)
  put_typed P Q k v (entry j w rest) p q (a, b, c) = elim (Bool-cases (R.same_key k j)) [
    | inl e ↦ rw e (a, q, c)
    | inr e ↦ rw e (a, b, put_typed P Q k v rest p q c)
  ]

  set_typed :
      (Safe : Type 0) (P Q : Go L → Type 0)
      → (Safe → (k : Go L) → P k → R.hashable k ≡ true)
      → (k v : Option (Go L)) (result : Entries L) → Ensures Safe P k
      → Ensures Safe Q v
      → AllEntries IsOther P Q result
      → Ensures Safe (AllEntries IsOther P Q) (set_both L R k v result)
  set_typed Safe P Q key none v result p q h = p
  set_typed Safe P Q key (some k) none result p q h = q
  set_typed Safe P Q key (some k) (some v) result p q h = elim (Bool-cases (R.hashable k)) [
    | inl e ↦ rw e (put_typed P Q k v result p q h)
    | inr e ↦ rw e (λ safe. let e2 : R.hashable k ≡ true = key safe k p in cc)
  ]

  entries_typed :
      (Safe : Type 0) (P Q : Go L → Type 0)
      → (Safe → (k : Go L) → P k → R.hashable k ≡ true)
      → (f g : Go L → Option (Go L)) → ((v : Go L) → Ensures Safe P (f v))
      → ((v : Go L) → Ensures Safe Q (g v))
      → (entries result : Entries L) → AllEntries IsOther P Q result
      → Ensures Safe (AllEntries IsOther P Q) (convert_entries L R f g entries result)
  entries_typed Safe P Q key f g hf hg no_entries result h = h
  entries_typed Safe P Q key f g hf hg (entry k v rest) result h =
      go (set_both L R (f k) (g v) result)
        (set_typed Safe P Q key (f k) (g v) result (hf k) (hg v) h)
        (entries_typed Safe P Q key f g hf hg rest)
    where
      go :
          (mid : Option (Entries L))
          → Ensures Safe (AllEntries IsOther P Q) mid
          → ((mid : Entries L)
              → AllEntries IsOther P Q mid
              → Ensures Safe (AllEntries IsOther P Q) (convert_entries L R f g rest mid))
          → Ensures Safe (AllEntries IsOther P Q) (and_then L R mid (convert_entries L R f g rest))
      go none p ih = p
      go (some mid) p ih = ih mid p

  Ensures-less :
      {A : Type 0} (Safe Less : Type 0) (P : A → Type 0) (o : Option A)
      → (Less → Safe)
      → Ensures Safe P o
      → Ensures Less P o
  Ensures-less Safe Less P none h p = λ l. p (h l)
  Ensures-less Safe Less P (some a) h p = p

  pub map_typed :
      (k t : GoType) (f g : Go L → Option (Go L))
      → ((v : Go L) → Ensures (IsPlain k) (Conforms IsOther k) (f v))
      → ((v : Go L) → Ensures (IsPlain t) (Conforms IsOther t) (g v))
      → (v : Go L)
      → Ensures (IsPlain (map_type k t)) (Conforms IsOther (map_type k t)) (build_map L R k t f g v)
  unfolding build_map
  map_typed k t f g hf hg v = from (normalize_map_input L R v)
    where
      made :
          (entries : Option (Entries L))
          → Ensures
              (IsPlain (map_type k t))
              (AllEntries IsOther (Conforms IsOther k) (Conforms IsOther t))
              entries
          → Ensures
              (IsPlain (map_type k t))
              (Conforms IsOther (map_type k t))
              (made_map L R k t entries)
      made none p = p
      made (some result) p = (refl, refl, p)

      from :
          (entries : Option (Entries L))
          → Ensures
              (IsPlain (map_type k t))
              (Conforms IsOther (map_type k t))
              (map_from L R k t f g entries)
      from none = (refl, refl, tt)
      from (some entries) = made (convert_entries L R f g entries no_entries) (
          entries_typed (IsPlain (map_type k t)) (Conforms IsOther k) (Conforms IsOther t)
            (λ safe j p. key_law k j safe.0 p) f g
            (λ j.
              Ensures-less _ _ (Conforms IsOther k) (f j) (λ (p : IsPlain (map_type k t)). p.1)
                (hf j))
            (λ w.
              Ensures-less _ _ (Conforms IsOther t) (g w) (λ (p : IsPlain (map_type k t)). p.2)
                (hg w))
            entries no_entries tt)

  pub pointed_typed :
      (t : GoType) (v : Option (Go L))
      → Ensures (IsPlain t) (Conforms IsOther t) v
      → Ensures (IsPlain t) (Conforms IsOther (ptr_type t)) (pointed L R t v)
  pointed_typed t none h = h
  pointed_typed t (some v) h = (refl, h)
