-- ===== src/Db/Mysql/Slashes.antt =====
-- Where the driver of MySQL cuts the string of db/config.go: a data source name is
-- [user[:password]@][net[(addr)]]/dbname[?params], cut at its last slash.
use nexgo.Base.{
  ◌≡◌, refl, Text, codes, Option, none, some, [], ◌∷◌, ◌++◌, nat_beq, arith, if◌then◌else◌,
}
use nexgo.Db.Mysql.{Config, address, schema, dsn}

-- What stands behind the last slash, if there is one.
abbrev pub behind_last_slash : Text → Option Text
behind_last_slash [] = none
behind_last_slash (c ∷ s) = elim (behind_last_slash s) [
  | some r ↦ some r
  | none ↦ if nat_beq c b'/' then some s else none
]

abbrev pub HasNoSlash : Text → Type 0
HasNoSlash s = behind_last_slash s ≡ none

last-append : (s t r : Text) → behind_last_slash t ≡ some r → behind_last_slash (s ++ t) ≡ some r
last-append [] t r h = h
last-append (c ∷ s) t r h = rw (last-append s t r h)

slash_before : (s : Text) → HasNoSlash s → behind_last_slash (b'/' ∷ s) ≡ some s
slash_before s h = rw h

no_slash-append : (s t : Text) → HasNoSlash s → HasNoSlash t → HasNoSlash (s ++ t)
no_slash-append [] t h k = k
no_slash-append (c ∷ s) t h k = ground (arith, no_slash-append s t)

-- What the driver takes for the database and its parameters is what Config means, if no slash stands
-- in the database, the charset or the location. If a slash stands in the location, as in that of every
-- region, it is what follows the last slash of the location.
pub behind-dsn :
    (c : Config)
    → (HasNoSlash c.base.database
        → HasNoSlash c.charset
        → HasNoSlash c.loc
        → behind_last_slash (dsn c) ≡ some (schema c))
      × ((r : Text) → behind_last_slash c.loc ≡ some r → behind_last_slash (dsn c) ≡ some r)
unfolding dsn
behind-dsn c = (clear, λ r h. last-append (address c) (b'/' ∷ schema c) r (behind r h))
  where
    located : Text
    located = codes "&parseTime=True&loc=" ++ c.loc

    encoded : Text
    encoded = codes "?charset=" ++ (c.charset ++ located)

    clear :
        HasNoSlash c.base.database
        → HasNoSlash c.charset
        → HasNoSlash c.loc
        → behind_last_slash (address c ++ (b'/' ∷ schema c)) ≡ some (schema c)
    clear d s l = last-append (address c) (b'/' ∷ schema c) (schema c) (
        slash_before (schema c) (
          no_slash-append c.base.database encoded d (
            no_slash-append (codes "?charset=") (c.charset ++ located) refl (
              no_slash-append c.charset located s
                (no_slash-append (codes "&parseTime=True&loc=") c.loc refl l)))))

    behind :
        (r : Text) → behind_last_slash c.loc ≡ some r → behind_last_slash (b'/' ∷ schema c) ≡ some r
    behind r h = last-append (b'/' ∷ c.base.database) encoded r (
        last-append (codes "?charset=") (c.charset ++ located) r
          (last-append c.charset located r (last-append (codes "&parseTime=True&loc=") c.loc r h)))
