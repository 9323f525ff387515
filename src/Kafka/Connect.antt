-- ===== src/Kafka/Connect.antt =====
-- validateKafkaCluster of kafka/validate.go, NewProducer of kafka/producer.go and ProducerConfig of
-- kafka/config.go: what they ask of the client library, in order. The library's answers are arguments:
-- an error, or `none` for success, for each attempt by its number.
pub mod Attempts
mod Tests
use nexgo.Base.{
  ℕ, zero, suc, ◌+◌, ◌-◌, ◌*◌, ◌/◌, ℤ, pos, Text, Bool, true, false, Option, none, some, List, [],
  ◌∷◌, ◌++◌, codes, ltb, to_upper, if◌then◌else◌,
}
use nexgo.Kafka.Config.{is_empty}

-- time.Second and time.Microsecond, in nanoseconds
abbrev pub second : ℕ
second = 1000000000

abbrev pub microsecond : ℕ
microsecond = 1000

-- The fields that BuildConfigMap reads.
pub record ProducerConfig : Type 0 where
  pub brokers : List Text
  pub client_id : Text
  pub acks : Text
  pub compression : Text
  pub linger_ms : ℤ
  pub batch_size : ℤ
  pub security_protocol : Text
  pub max_retries : ℤ

unfoldable pub default_producer_config : ProducerConfig
default_producer_config = record {
  brokers = [];
  client_id = [];
  acks = codes "all";
  compression = codes "none";
  linger_ms = pos 0;
  batch_size = pos (100 * 1024);
  security_protocol = codes "PLAINTEXT";
  max_retries = pos 3;
}

-- What is asked of the library; `start_reports` is the goroutine of handleDeliveryReports.
pub data Call : Type 0 where
  new_admin_client close_admin new_kafka_producer start_reports : Call
  get_metadata sleep : ℕ → Call

pub data ConnectError (E : Type 0) : Type 0 where
  brokers_required : ConnectError E
  no_admin_client no_brokers_connection no_producer : E → ConnectError E

-- ProducerConfig.Validate
unfoldable pub validate_producer : {E : Type 0} → ProducerConfig → Option (ConnectError E)
validate_producer c = if is_empty c.brokers then some brokers_required else none

abbrev pub max_retries : ℕ
max_retries = 3

-- `if i < maxRetries-1`, with what stands before it
abbrev pub failed_attempt : Call → ℕ → ℕ → List Call
failed_attempt create delay i =
    if ltb i (max_retries - 1) then create ∷ sleep delay ∷ [] else create ∷ []

abbrev pub or_default : Option ProducerConfig → ProducerConfig
unfolding default_producer_config
or_default none = default_producer_config
or_default (some c) = c

module _ {E : Type 0} where
  abbrev pub behind : List Call → Option E × List Call → Option E × List Call
  behind calls (e, rest) = (e, calls ++ rest)

  -- The loop of attempts, from attempt `i` on with the last error: it breaks on success.
  unfoldable pub attempt_loop : Call → ℕ → (ℕ → Option E) → ℕ → ℕ → Option E → Option E × List Call
  attempt_loop create delay answers zero i last = (last, [])
  attempt_loop create delay answers (suc left) i last = elim (answers i) [
    | none ↦ (none, create ∷ [])
    | some e ↦
        behind (failed_attempt create delay i)
          (attempt_loop create delay answers left (suc i) (some e))
  ]

  abbrev pub after_metadata : Option E → Option (ConnectError E)
  after_metadata none = none
  after_metadata (some e) = some (no_brokers_connection e)

  abbrev pub with_admin : Option E × List Call → Option E → Option (ConnectError E) × List Call
  with_admin (some e, calls) metadata = (some (no_admin_client e), calls)
  with_admin (none, calls) metadata = (
    after_metadata metadata,
    calls ++ (get_metadata (10 * second / microsecond) ∷ close_admin ∷ []),
  )

  -- validateKafkaCluster; `get_metadata` has its timeout, in milliseconds.
  unfoldable pub validate_kafka_cluster :
      (ℕ → Option E) → Option E → Option (ConnectError E) × List Call
  unfolding attempt_loop
  validate_kafka_cluster admin metadata =
      with_admin (attempt_loop new_admin_client (2 * second) admin max_retries 0 none) metadata

  abbrev pub with_producer : List Call → Option E × List Call → Option (ConnectError E) × List Call
  with_producer before (some e, calls) = (some (no_producer e), before ++ calls)
  with_producer before (none, calls) = (none, before ++ (calls ++ (start_reports ∷ [])))

  abbrev pub with_cluster :
      Option (ConnectError E) × List Call → (ℕ → Option E) → Option (ConnectError E) × List Call
  unfolding attempt_loop
  with_cluster (some e, calls) made = (some e, calls)
  with_cluster (none, calls) made =
      with_producer calls (attempt_loop new_kafka_producer (3 * second) made max_retries 0 none)

  abbrev pub with_config :
      Option (ConnectError E)
      → (ℕ → Option E)
      → Option E
      → (ℕ → Option E)
      → Option (ConnectError E) × List Call
  unfolding validate_kafka_cluster attempt_loop
  with_config (some e) admin metadata made = (some e, [])
  with_config none admin metadata made = with_cluster (validate_kafka_cluster admin metadata) made

  -- NewProducer: its error, and the calls.
  unfoldable pub new_producer :
      Option ProducerConfig
      → (ℕ → Option E)
      → Option E
      → (ℕ → Option E)
      → Option (ConnectError E) × List Call
  unfolding default_producer_config validate_producer validate_kafka_cluster attempt_loop
  new_producer config admin metadata made =
      with_config (validate_producer (or_default config)) admin metadata made
