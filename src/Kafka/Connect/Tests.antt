-- ===== src/Kafka/Connect/Tests.antt =====
-- The theorem about NewProducer at a concrete input: one failing attempt at each client.
use nexgo.Base.{ℕ, pos, ◌≡◌, refl, Option, none, some, [], ◌∷◌, ◌++◌, codes, ltb, if◌then◌else◌}
use nexgo.Kafka.Connect.{
  ProducerConfig, new_admin_client, close_admin, new_kafka_producer, start_reports, get_metadata,
  sleep, brokers_required, no_admin_client, no_brokers_connection, no_producer, new_producer,
}
use nexgo.Kafka.Connect.Attempts.{attempts_made, last_error, asked, new_producer_lem}

abbrev plain : ProducerConfig
plain = record {
  brokers = codes "a:9092" ∷ [];
  client_id = [];
  acks = codes "all";
  compression = codes "none";
  linger_ms = pos 0;
  batch_size = pos 102400;
  security_protocol = codes "PLAINTEXT";
  max_retries = pos 3;
}

abbrev first_fails : ℕ → Option ℕ
first_fails i = if ltb i 1 then some 7 else none

new_producer_runs : new_producer (some plain) first_fails none first_fails ≡ (
  none,
  new_admin_client
      ∷ sleep 2000000000
      ∷ new_admin_client
      ∷ get_metadata 10000000
      ∷ close_admin
      ∷ new_kafka_producer
      ∷ sleep 3000000000
      ∷ new_kafka_producer
      ∷ start_reports
      ∷ [],
)
unfolding new_producer
new_producer_runs = refl

new_producer_example :
    let first = attempts_made new_admin_client 2000000000 first_fails in
    let later = attempts_made new_kafka_producer 3000000000 first_fails in
    ((e : ℕ)
      → last_error first_fails ≡ some e
      → new_producer (some plain) first_fails none first_fails ≡ (some (no_admin_client e), first))
    × ((e : ℕ)
        → last_error first_fails ≡ none
        → none ≡ some e
        → new_producer (some plain) first_fails none first_fails
          ≡ (some (no_brokers_connection e), first ++ asked))
    × ((e : ℕ)
        → last_error first_fails ≡ none
        → ◌≡◌ {A = Option ℕ} none none
        → last_error first_fails ≡ some e
        → new_producer (some plain) first_fails none first_fails
          ≡ (some (no_producer e), (first ++ asked) ++ later))
    × (last_error first_fails ≡ none
        → ◌≡◌ {A = Option ℕ} none none
        → last_error first_fails ≡ none
        → new_producer (some plain) first_fails none first_fails
          ≡ (none, (first ++ asked) ++ (later ++ (start_reports ∷ []))))
    × (new_producer {E = ℕ} none first_fails none first_fails ≡ (some brokers_required, []))
new_producer_example = new_producer_lem plain first_fails none first_fails refl
