-- ===== src/Db/Postgres/Meaning.antt =====
-- The whole connection string of db/postgres_config.go, and what breaks a value in it.
use nexgo.Base.{
  ℕ, ◌<◌, ◌≡◌, refl, sym, Text, codes, true, false, some, List, [], ◌∷◌, All, length, map,
  format_int, format_int-IsNumeral, arith,
}
use nexgo.Base.Texts.{join}
use nexgo.Db.Postgres.{PostgresConfig, pg_escape, application_part, dsn}
use nexgo.Db.Postgres.Reading.{has_break, read_settings}
use nexgo.Db.Postgres.RoundTrip.{
  Line, line_text, IsReadable, meaning, is_key, starts_black, pg_escape-Reads, numeral-Reads,
  read_settings-join,
}

-- No value of the configuration holds white space other than the space itself.
pub record IsClean (c : PostgresConfig) : Type 0 where
  pub host : has_break c.base.host ≡ false
  pub user : has_break c.base.user ≡ false
  pub password : has_break c.base.password ≡ false
  pub database : has_break c.base.database ≡ false
  pub ssl_mode : has_break c.ssl_mode ≡ false
  pub time_zone : has_break c.time_zone ≡ false
  pub search_path : has_break c.search_path ≡ false
  pub application_name : has_break c.application_name ≡ false

abbrev escaped : Text → Text → Line
escaped key v = record { key = key; printed = pg_escape v; value = v }

abbrev application_line : Text → List Line
application_line [] = []
application_line (c ∷ s) = escaped (codes "application_name") (c ∷ s) ∷ []

abbrev lines : PostgresConfig → List Line
lines c =
    escaped (codes "host") c.base.host
    ∷ record {
      key = codes "port";
      printed = format_int c.base.port;
      value = format_int c.base.port;
    }
    ∷ escaped (codes "user") c.base.user
    ∷ escaped (codes "password") c.base.password
    ∷ escaped (codes "dbname") c.base.database
    ∷ escaped (codes "sslmode") c.ssl_mode
    ∷ escaped (codes "TimeZone") c.time_zone
    ∷ escaped (codes "search_path") c.search_path
    ∷ application_line c.application_name

-- The settings that the configuration means.
abbrev pub application_setting : Text → List (Text × Text)
application_setting [] = []
application_setting (c ∷ s) = (codes "application_name", c ∷ s) ∷ []

abbrev pub settings_of : PostgresConfig → List (Text × Text)
settings_of c =
    (codes "host", c.base.host)
    ∷ (codes "port", format_int c.base.port)
    ∷ (codes "user", c.base.user)
    ∷ (codes "password", c.base.password)
    ∷ (codes "dbname", c.base.database)
    ∷ (codes "sslmode", c.ssl_mode)
    ∷ (codes "TimeZone", c.time_zone)
    ∷ (codes "search_path", c.search_path)
    ∷ application_setting c.application_name

escaped-IsReadable :
    (key v : Text)
    → is_key key ≡ true
    → starts_black key ≡ true
    → has_break v ≡ false
    → IsReadable (escaped key v)
escaped-IsReadable key v k b h = record { has_key = k; begins = b; reads = pg_escape-Reads v h }

application-IsReadable : (s : Text) → has_break s ≡ false → All IsReadable (application_line s)
application-IsReadable [] h = tt
application-IsReadable (c ∷ s) h =
    (escaped-IsReadable (codes "application_name") (c ∷ s) refl refl h, tt)

lines-IsReadable : (c : PostgresConfig) → IsClean c → All IsReadable (lines c)
lines-IsReadable c v = (
  escaped-IsReadable (codes "host") c.base.host refl refl v.host,
  (
    port,
    (
      escaped-IsReadable (codes "user") c.base.user refl refl v.user,
      (
        escaped-IsReadable (codes "password") c.base.password refl refl v.password,
        (
          escaped-IsReadable (codes "dbname") c.base.database refl refl v.database,
          (
            escaped-IsReadable (codes "sslmode") c.ssl_mode refl refl v.ssl_mode,
            (
              escaped-IsReadable (codes "TimeZone") c.time_zone refl refl v.time_zone,
              (
                escaped-IsReadable (codes "search_path") c.search_path refl refl v.search_path,
                application-IsReadable c.application_name v.application_name,
              ),
            ),
          ),
        ),
      ),
    ),
  ),
)
  where
    port : IsReadable record {
      key = codes "port";
      printed = format_int c.base.port;
      value = format_int c.base.port;
    }
    port = record {
      has_key = refl;
      begins = refl;
      reads = numeral-Reads (format_int c.base.port) (format_int-IsNumeral c.base.port);
    }

-- A string that is read as the settings of a configuration, whatever its application name.
read_lines :
    (c : PostgresConfig) (fuel : ℕ)
    → IsClean c
    → length (lines c) < fuel
    → read_settings fuel (join (b' ' ∷ []) (map line_text (lines c))) ≡ some (meaning (lines c))
read_lines c fuel v h = read_settings-join fuel (lines c) h (lines-IsReadable c v)

application_lines :
    (s : Text)
    → (map line_text (application_line s) ≡ application_part s)
      × (meaning (application_line s) ≡ application_setting s)
      × (length (application_line s) < 2)
application_lines [] = (refl, refl, omega arith)
application_lines (c ∷ s) = (refl, refl, omega arith)

-- A configuration whose values hold no white space but spaces: its connection string is read back as
-- exactly its settings, in order, the port as its numeral and the application name only if it is set,
-- whatever quotes, backslashes, spaces and equals signs the values hold.
pub read_settings-dsn :
    (c : PostgresConfig) (fuel : ℕ)
    → IsClean c
    → 9 < fuel
    → read_settings fuel (dsn c) ≡ some (settings_of c)
unfolding dsn
read_settings-dsn c fuel v h =
    let (printed, meant, short) = application_lines c.application_name in
    rw (sym printed, sym meant) (read_lines c fuel v (omega arith))
