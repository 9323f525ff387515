-- ===== src/Kafka/Config.antt =====
-- ConsumerConfig and ProducerConfig of kafka/config.go with their Validate methods.
use nexgo.Base.{
  ◌≡◌, ◌⊎◌, ◌↔◌, ℤ, Text, Bool, true, false, not, ◌&&◌, Option, none, some, List, [], ◌∷◌, codes,
  text_eq, nat_eq, not_positive, if◌then◌else◌, arith,
}

pub record ConsumerConfig : Type 0 where
  pub brokers : List Text
  pub group_id : Text
  pub topics : List Text
  pub max_retries : ℤ
  pub instance_num : ℤ
  pub auto_offset_reset : Text
  pub enable_auto_commit : Bool
  pub auto_commit_interval : ℤ
  pub session_timeout : ℤ
  pub max_poll_interval : ℤ
  pub security_protocol : Text
  pub debug : Bool
  pub statistics_interval_ms : ℤ

pub data ConfigError : Type 0 where
  no_brokers no_group_id no_topics bad_offset_reset bad_commit_interval : ConfigError
  bad_session_timeout bad_poll_interval : ConfigError

abbrev pub is_empty {ℓ} : {A : Type ℓ} → List A → Bool
is_empty [] = true
is_empty (x ∷ xs) = false

unfoldable pub validate_consumer : ConsumerConfig → Option ConfigError
validate_consumer c =
    if is_empty c.brokers
    then some no_brokers
    else if is_empty c.group_id
    then some no_group_id
    else if is_empty c.topics
    then some no_topics
    else if not (text_eq c.auto_offset_reset (codes "earliest"))
        && not (text_eq c.auto_offset_reset (codes "latest"))
    then some bad_offset_reset
    else if c.enable_auto_commit && not_positive c.auto_commit_interval
    then some bad_commit_interval
    else if not_positive c.session_timeout
    then some bad_session_timeout
    else if not_positive c.max_poll_interval
    then some bad_poll_interval
    else none

-- A consumer configuration passes Validate exactly if it has brokers, a group and topics, its reset
-- policy is one of the two, its timeouts are positive, and so is the commit interval where commits
-- are automatic. MaxRetries and InstanceNum are not looked at.
pub validate_consumer_iff :
    (c : ConsumerConfig)
    → (validate_consumer c ≡ none) ↔ (
        (is_empty c.brokers ≡ false)
        × (is_empty c.group_id ≡ false)
        × (is_empty c.topics ≡ false)
        × ((text_eq c.auto_offset_reset (codes "earliest") ≡ true)
            ⊎ (text_eq c.auto_offset_reset (codes "latest") ≡ true))
        × (c.enable_auto_commit ≡ true → not_positive c.auto_commit_interval ≡ false)
        × (not_positive c.session_timeout ≡ false)
        × (not_positive c.max_poll_interval ≡ false))
unfolding validate_consumer
validate_consumer_iff c = decided _ _ _ _ _ _ _ _ _
  where
    decided :
        (b g t e l a i s p : Bool)
        → ((if b
              then some no_brokers
              else if g
              then some no_group_id
              else if t
              then some no_topics
              else if not e && not l
              then some bad_offset_reset
              else if a && i
              then some bad_commit_interval
              else if s
              then some bad_session_timeout
              else if p
              then some bad_poll_interval
              else none)
            ≡ none)
          ↔ ((b ≡ false)
              × (g ≡ false)
              × (t ≡ false)
              × ((e ≡ true) ⊎ (l ≡ true))
              × (a ≡ true → i ≡ false)
              × (s ≡ false)
              × (p ≡ false))
    decided b g t e l a i s p = ground arith
