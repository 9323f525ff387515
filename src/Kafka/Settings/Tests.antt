-- ===== src/Kafka/Settings/Tests.antt =====
-- The theorem about the settings of kafka/config.go at a session timeout of half a millisecond.
use nexgo.Base.{
  ◌<◌, ◌/◌, ◌≡◌, refl, pos, true, false, none, some, [], ◌∷◌, codes, lookup, nat_eq, list_eq,
  if◌then◌else◌,
}
use nexgo.Kafka.Config.{ConsumerConfig, validate_consumer}
use nexgo.Kafka.Settings.{number, milliseconds, consumer_config_map}
use nexgo.Kafka.Settings.Rounded.{consumer_config_map-Rounded}

abbrev hasty : ConsumerConfig
hasty = record {
  brokers = codes "b:9092" ∷ [];
  group_id = codes "g";
  topics = codes "t" ∷ [];
  max_retries = pos 3;
  instance_num = pos 1;
  auto_offset_reset = codes "latest";
  enable_auto_commit = true;
  auto_commit_interval = pos 5000000000;
  session_timeout = pos 500000;
  max_poll_interval = pos 120000000000;
  security_protocol = codes "PLAINTEXT";
  debug = false;
  statistics_interval_ms = pos 0;
}

hasty_is_valid : validate_consumer hasty ≡ none
unfolding validate_consumer
hasty_is_valid = refl

consumer_config_map-Rounded_example :
    (0 < 500000)
    × (lookup (codes "session.timeout.ms") (consumer_config_map hasty)
        ≡ some (number (pos (500000 / 1000000))))
    × (500000 < 1000000
        → lookup (codes "session.timeout.ms") (consumer_config_map hasty) ≡ some (number (pos 0)))
    × (lookup (codes "auto.commit.interval.ms") (consumer_config_map hasty)
        ≡ (if true then some (number (milliseconds (pos 5000000000))) else none))
consumer_config_map-Rounded_example = consumer_config_map-Rounded hasty 500000 hasty_is_valid refl
