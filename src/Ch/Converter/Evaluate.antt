-- ===== src/Ch/Converter/Evaluate.antt =====
-- DefaultFunc.Evaluate and generateUUID of ch/converter.go. The clock and the random bytes are
-- arguments.
use nexgo.Base.{
  ℕ, ◌+◌, ◌/◌, ◌%◌, negsuc, Text, List, [], ◌∷◌, ◌++◌, codes, text_eq, to_lower, ltb, take, drop,
  modify, if◌then◌else◌,
}
use nexgo.Ch.Converter.Value.{Library, Value, DefaultFunc, nil, string, time}

abbrev pub hex_digit : ℕ → ℕ
hex_digit d = if ltb d 10 then 48 + d else 87 + d

-- `%x` of bytes
abbrev pub hex : List ℕ → Text
hex [] = []
hex (b ∷ bs) = hex_digit (b / 16) ∷ hex_digit (b % 16) ∷ hex bs

-- `(b & 0x0f) | 0x40` and `(b & 0x3f) | 0x80` of a byte
abbrev pub version_4 : ℕ → ℕ
version_4 b = 64 + b % 16

abbrev pub variant_10 : ℕ → ℕ
variant_10 b = 128 + b % 64

unfoldable pub generate_uuid : List ℕ → Text
generate_uuid random =
    let b = modify variant_10 8 (modify version_4 6 random) in
    hex (take 4 b)
    ++ (b'-' ∷ hex (take 2 (drop 4 b)))
    ++ (b'-' ∷ hex (take 2 (drop 6 b)))
    ++ (b'-' ∷ hex (take 2 (drop 8 b)))
    ++ (b'-' ∷ hex (drop 10 b))

module _ (L : Library) where
  -- `now` is what time.Now().UTC() answers, `random` what rand.Read fills in.
  unfoldable pub evaluate : DefaultFunc → L.Time → List ℕ → Value L
  unfolding generate_uuid
  evaluate f now random =
      let name = to_lower f.name in
      if text_eq name (codes "now")
      then time now
      else if text_eq name (codes "now64")
      then time now
      else if text_eq name (codes "today")
      then time (L.midnight now)
      else if text_eq name (codes "yesterday")
      then time (L.midnight (L.add_days (negsuc 0) now))
      else if text_eq name (codes "generateuuidv4")
      then string (generate_uuid random)
      else nil
