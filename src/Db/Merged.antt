-- ===== src/Db/Merged.antt =====
-- Which settings of db/config.go and db/postgres_config.go pass their checks once the defaults are
-- merged in.
use nexgo.Base.{
  ◌≡◌, refl, ◌∙◌, Text, codes, Bool, true, false, not, ◌||◌, ◌&&◌, Option, none, some, List, [],
  ◌∷◌, ℤ, pos, not_positive, is_negative, if◌then◌else◌, arith,
}
use nexgo.Base.Texts.{
  is_empty_text, or_text, or_int, fold_among, or_text_twice, or_int_twice, not_positive-or_int,
}
use nexgo.Db.Settings.{
  BaseConfig, ConfigError, bad_ssl_mode, merge_pool_defaults, base_pool_defaults, validate_required,
  validate_log_level, valid_log_levels,
}
use nexgo.Db.Mysql.{Config, first_error}
use nexgo.Db.Mysql
use nexgo.Db.Postgres
use nexgo.Db.Postgres.{PostgresConfig, valid_ssl_modes}

-- A choice that is left open or made among those listed.
abbrev pub is_open_or : List Text → Text → Bool
is_open_or choices s = is_empty_text s || fold_among s choices

-- The settings without a default are made, and the others are fit or left open.
abbrev pub is_complete : BaseConfig → Bool
is_complete b =
    not (is_empty_text b.host)
    && (not (is_negative b.port)
        && (not (is_empty_text b.user)
            && (not (is_empty_text b.password)
                && (not (is_empty_text b.database) && is_open_or valid_log_levels b.log_level))))

abbrev pub passes : Option ConfigError → Bool
passes none = true
passes (some e) = false

choice-or_text :
    (s d : Text) (choices : List Text)
    → fold_among d choices ≡ true
    → fold_among (or_text s d) choices ≡ is_open_or choices s
choice-or_text [] d choices h = h
choice-or_text (c ∷ s) d choices h = refl

-- The checks that both kinds of settings share, with a default port that is fit.
base_passes :
    (b : BaseConfig) (d : ℤ)
    → not_positive d ≡ false
    → passes (
        first_error
          (validate_required (merge_pool_defaults (record b { port = or_int b.port d })))
          (validate_log_level (merge_pool_defaults (record b { port = or_int b.port d }))))
      ≡ is_complete b
unfolding validate_required validate_log_level merge_pool_defaults base_pool_defaults
base_passes b d h =
    rw
      (
        choice-or_text b.log_level (codes "warn") valid_log_levels refl,
        not_positive-or_int b.port d h,
      )
      (ground arith)

passes-first_error :
    (a b c : Option ConfigError)
    → passes (first_error a (first_error b c)) ≡ (passes (first_error a b) && passes c)
passes-first_error none none c = refl
passes-first_error none (some e) c = refl
passes-first_error (some e) b c = refl

check : (b : Bool) (e : ConfigError) → passes (if b then none else some e) ≡ b
check b e = ground arith

-- Settings of MySQL pass their checks after the merge exactly if all without a default are given, the
-- port is not negative and the log level is open or a known one. Those of PostgreSQL pass exactly if
-- this holds and the SSL mode is open or a known one. To merge twice is to merge once.
validate-merge_defaults :
    (m : Config) (p : PostgresConfig)
    → (passes (Mysql.validate (Mysql.merge_defaults m)) ≡ is_complete m.base)
      × (passes (Postgres.validate (Postgres.merge_defaults p))
          ≡ (is_complete p.base && is_open_or valid_ssl_modes p.ssl_mode))
      × (Mysql.merge_defaults (Mysql.merge_defaults m) ≡ Mysql.merge_defaults m)
      × (Postgres.merge_defaults (Postgres.merge_defaults p) ≡ Postgres.merge_defaults p)
unfolding Mysql.validate Mysql.merge_defaults Postgres.validate Postgres.merge_defaults
validate-merge_defaults m p = (
  base_passes m.base (pos 3306) refl,
  ssl,
  unfold merge_pool_defaults base_pool_defaults in simp (or_int_twice, or_text_twice),
  unfold merge_pool_defaults base_pool_defaults in simp (or_int_twice, or_text_twice),
)
  where
    ssl :
        passes (Postgres.validate (Postgres.merge_defaults p))
        ≡ (is_complete p.base && is_open_or valid_ssl_modes p.ssl_mode)
    ssl =
        let merged = merge_pool_defaults (record p.base { port = or_int p.base.port (pos 5432) }) in
        let mode = fold_among (or_text p.ssl_mode (codes "disable")) valid_ssl_modes in
        passes-first_error (validate_required merged) (validate_log_level merged)
          (if mode then none else some bad_ssl_mode)
        ∙ rw
            (
              base_passes p.base (pos 5432) refl,
              check mode bad_ssl_mode,
              choice-or_text p.ssl_mode (codes "disable") valid_ssl_modes refl,
            )
            refl
