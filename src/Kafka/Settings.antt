-- ===== src/Kafka/Settings.antt =====
-- The BuildConfigMap methods of kafka/config.go. The client's ConfigMap is a dictionary, whose SetKey
-- adds or replaces an entry.
pub mod Rounded
mod Tests
use nexgo.Base.{
  ℕ, zero, suc, ◌+◌, ◌*◌, ◌/◌, ◌-◌, ℤ, pos, negsuc, Text, Bool, true, false, List, [], ◌∷◌, codes,
  to_lower, not_positive, if◌then◌else◌, Dict, insert, nat_eq, list_eq,
}
use nexgo.Base.Texts.{join}
use nexgo.Kafka.Config.{ConsumerConfig, is_empty}
use nexgo.Kafka.Connect.{ProducerConfig}

pub data Setting : Type 0 where
  text : Text → Setting
  number : ℤ → Setting
  flag : Bool → Setting

-- A quotient that is rounded towards zero, negated.
abbrev pub negated : ℕ → ℤ
negated zero = pos 0
negated (suc m) = negsuc m

-- Duration.Milliseconds
unfoldable pub milliseconds : ℤ → ℤ
milliseconds (pos n) = pos (n / 1000000)
milliseconds (negsuc n) = negated (suc n / 1000000)

abbrev pub ConfigMap : Type 0
ConfigMap = Dict Text Setting

abbrev pub when : Bool → (ConfigMap → ConfigMap) → ConfigMap → ConfigMap
when true f m = f m
when false f m = m

-- The keys that are always set.
unfoldable pub required : ConsumerConfig → ConfigMap
unfolding milliseconds
required c =
    (codes "bootstrap.servers", text (join (codes ",") c.brokers))
    ∷ (codes "group.id", text c.group_id)
    ∷ (codes "auto.offset.reset", text (to_lower c.auto_offset_reset))
    ∷ (codes "enable.auto.commit", flag c.enable_auto_commit)
    ∷ (codes "session.timeout.ms", number (milliseconds c.session_timeout))
    ∷ (codes "max.poll.interval.ms", number (milliseconds c.max_poll_interval))
    ∷ (codes "security.protocol", text c.security_protocol)
    ∷ []

-- The keys that are set under a condition, in the order of the code.
unfoldable pub optional : Bool → ℤ → Bool → Bool → ℤ → ConfigMap → ConfigMap
unfolding insert
optional auto commit_ms debug statistics statistics_ms m =
    when statistics (insert (codes "statistics.interval.ms") (number statistics_ms)) (
      when debug (insert (codes "debug") (text (codes "consumer,cgrp,topic,fetch")))
        (when auto (insert (codes "auto.commit.interval.ms") (number commit_ms)) m))

abbrev pub is_positive : ℤ → Bool
is_positive n = if not_positive n then false else true

unfoldable pub consumer_config_map : ConsumerConfig → ConfigMap
unfolding required optional milliseconds
consumer_config_map c =
    optional c.enable_auto_commit (milliseconds c.auto_commit_interval) c.debug
      (is_positive c.statistics_interval_ms) c.statistics_interval_ms (required c)

unfoldable pub producer_config_map : ProducerConfig → ConfigMap
producer_config_map p =
    let required : ConfigMap =
      (codes "bootstrap.servers", text (join (codes ",") p.brokers))
      ∷ (codes "compression.type", text (to_lower p.compression))
      ∷ (codes "acks", text (to_lower p.acks))
      ∷ (codes "linger.ms", number p.linger_ms)
      ∷ (codes "batch.size", number p.batch_size)
      ∷ (codes "retries", number p.max_retries)
      ∷ (codes "security.protocol", text p.security_protocol)
      ∷ [] in
    when (if is_empty p.client_id then false else true)
      (insert (codes "client.id") (text p.client_id)) required
