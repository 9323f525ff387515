-- ===== src/Kafka/Connect/Attempts.antt =====
-- The attempts of kafka/validate.go and of NewProducer in kafka/producer.go.
use nexgo.Base.{ℕ, ◌≡◌, refl, false, Option, none, some, List, [], ◌∷◌, ◌++◌, arith}
use nexgo.Kafka.Config.{is_empty}
use nexgo.Kafka.Connect.{
  ProducerConfig, Call, new_admin_client, close_admin, new_kafka_producer, start_reports,
  get_metadata, sleep, brokers_required, no_admin_client, no_brokers_connection, no_producer,
  validate_producer, attempt_loop, validate_kafka_cluster, new_producer,
}

-- What is asked of an admin client.
abbrev pub asked : List Call
asked = get_metadata 10000000 ∷ close_admin ∷ []

module _ {E : Type 0} where
  -- Three attempts at most, with a pause between two of them, up to the first that succeeds.
  abbrev pub attempts_made : Call → ℕ → (ℕ → Option E) → List Call
  attempts_made create delay answers = elim (answers 0) [
    | none ↦ create ∷ []
    | some a ↦ elim (answers 1) [
      | none ↦ create ∷ sleep delay ∷ create ∷ []
      | some b ↦ create ∷ sleep delay ∷ create ∷ sleep delay ∷ create ∷ []
    ]
  ]

  -- The error of the last attempt, if all three fail.
  abbrev pub last_error : (ℕ → Option E) → Option E
  last_error answers = elim (answers 0) [
    | none ↦ none
    | some a ↦ elim (answers 1) [ none ↦ none | some b ↦ answers 2 ]
  ]

  loop_attempts :
      (create : Call) (delay : ℕ) (answers : ℕ → Option E)
      → attempt_loop create delay answers 3 0 none
        ≡ (last_error answers, attempts_made create delay answers)
  unfolding attempt_loop
  loop_attempts create delay answers = ground arith

  -- With brokers given, NewProducer asks for an admin client up to the first success, three times at
  -- most, with pauses of 2 seconds between. If all fail, that is its error. Else it asks once for
  -- metadata, with a timeout of 10,000,000 milliseconds, and closes the admin client whatever comes;
  -- an error is returned. Else it asks for a producer up to the first success, three times at most,
  -- with pauses of 3 seconds between: if all fail, the last error is returned, and else the goroutine
  -- of the delivery reports is started. With no configuration it is always an error.
  pub new_producer_lem :
      (c : ProducerConfig) (admin : ℕ → Option E) (metadata : Option E) (made : ℕ → Option E)
      → is_empty c.brokers ≡ false
      → let first = attempts_made new_admin_client 2000000000 admin in
        let later = attempts_made new_kafka_producer 3000000000 made in
        ((e : E)
          → last_error admin ≡ some e
          → new_producer (some c) admin metadata made ≡ (some (no_admin_client e), first))
        × ((e : E)
            → last_error admin ≡ none
            → metadata ≡ some e
            → new_producer (some c) admin metadata made
              ≡ (some (no_brokers_connection e), first ++ asked))
        × ((e : E)
            → last_error admin ≡ none
            → metadata ≡ none
            → last_error made ≡ some e
            → new_producer (some c) admin metadata made
              ≡ (some (no_producer e), (first ++ asked) ++ later))
        × (last_error admin ≡ none
            → metadata ≡ none
            → last_error made ≡ none
            → new_producer (some c) admin metadata made
              ≡ (none, (first ++ asked) ++ (later ++ (start_reports ∷ []))))
        × (new_producer {E = E} none admin metadata made ≡ (some brokers_required, []))
  unfolding new_producer validate_producer validate_kafka_cluster
  new_producer_lem c admin metadata made h = (
    (λ e p. rw (h, loop_attempts new_admin_client 2000000000 admin, p) refl),
    (λ e p q. rw (h, loop_attempts new_admin_client 2000000000 admin, p, q) refl),
    (λ e p q r.
        rw
          (
            h,
            loop_attempts new_admin_client 2000000000 admin,
            p,
            q,
            loop_attempts new_kafka_producer 3000000000 made,
            r,
          )
          refl),
    (λ p q r.
        rw
          (
            h,
            loop_attempts new_admin_client 2000000000 admin,
            p,
            q,
            loop_attempts new_kafka_producer 3000000000 made,
            r,
          )
          refl),
    refl,
  )
