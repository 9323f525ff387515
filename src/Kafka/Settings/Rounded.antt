-- ===== src/Kafka/Settings/Rounded.antt =====
-- What a consumer's settings become in kafka/config.go.
use nexgo.Base.{
  ℕ, ◌<◌, ◌/◌, ◌≡◌, refl, ap, sym, ◌∙◌, ℤ, pos, Bool, true, false, none, some, codes, not_positive,
  if◌then◌else◌, lookup, nat_eq, list_eq, arith,
}
use nexgo.Kafka.Config.{ConsumerConfig, validate_consumer, validate_consumer_iff}
use nexgo.Kafka.Settings.{number, milliseconds, required, optional, consumer_config_map}

session_lookup :
    (c : ConsumerConfig) (auto debug statistics : Bool) (x y : ℤ)
    → lookup (codes "session.timeout.ms") (optional auto x debug statistics y (required c))
      ≡ some (number (milliseconds c.session_timeout))
unfolding lookup optional required
session_lookup c false false false x y = refl
session_lookup c false false true x y = refl
session_lookup c false true false x y = refl
session_lookup c false true true x y = refl
session_lookup c true false false x y = refl
session_lookup c true false true x y = refl
session_lookup c true true false x y = refl
session_lookup c true true true x y = refl

commit_lookup :
    (c : ConsumerConfig) (auto debug statistics : Bool) (x y : ℤ)
    → lookup (codes "auto.commit.interval.ms") (optional auto x debug statistics y (required c))
      ≡ (if auto then some (number x) else none)
unfolding lookup optional required
commit_lookup c false false false x y = refl
commit_lookup c false false true x y = refl
commit_lookup c false true false x y = refl
commit_lookup c false true true x y = refl
commit_lookup c true false false x y = refl
commit_lookup c true false true x y = refl
commit_lookup c true true false x y = refl
commit_lookup c true true true x y = refl

positive : (n : ℕ) → not_positive (pos n) ≡ false → 0 < n
positive n h = ground arith

below : (n : ℕ) → n < 1000000 → n / 1000000 ≡ 0
below n h = omega (arith, h)

-- A consumer configuration that passes Validate, with a session timeout of `n` nanoseconds: the
-- timeout reaches the client in whole milliseconds, rounded down, and as 0 if it is under one, though
-- Validate wants it positive; and the commit interval reaches it exactly if commits are automatic.
pub consumer_config_map-Rounded :
    (c : ConsumerConfig) (n : ℕ)
    → validate_consumer c ≡ none
    → c.session_timeout ≡ pos n
    → (0 < n)
      × (lookup (codes "session.timeout.ms") (consumer_config_map c)
          ≡ some (number (pos (n / 1000000))))
      × (n < 1000000
          → lookup (codes "session.timeout.ms") (consumer_config_map c) ≡ some (number (pos 0)))
      × (lookup (codes "auto.commit.interval.ms") (consumer_config_map c) ≡ (
          if c.enable_auto_commit
          then some (number (milliseconds c.auto_commit_interval))
          else none))
unfolding consumer_config_map milliseconds
consumer_config_map-Rounded c n v e = (
  positive n (ap not_positive (sym e) ∙ ((validate_consumer_iff c).0 v).5),
  whole,
  (λ h. whole ∙ ap (λ (k : ℕ). some (number (pos k))) (below n h)),
  commit_lookup c _ _ _ _ _,
)
  where
    whole :
        lookup (codes "session.timeout.ms") (consumer_config_map c)
        ≡ some (number (pos (n / 1000000)))
    whole = session_lookup c _ _ _ _ _ ∙ ap (λ z. some (number (milliseconds z))) e
