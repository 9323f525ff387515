-- ===== src/Kafka/Producer/Closing.antt =====
-- The done channel of kafka/producer.go, which both the goroutine and Close may close.
use nexgo.Base.{
  not, ◌||◌, is_some, Bool, true, false, Option, none, List, [], ◌∷◌, ◌++◌, if◌then◌else◌,
}
use nexgo.Kafka.Producer.{
  KafkaMessage, step, Report, delivery, kafka_error, unknown_event, Notice, Producer, Step,
  reported, KafkaMessage, step, notices_of, run,
}

-- Whether the reports say that all brokers are down.
abbrev pub brokers_down : {Time E : Type 0} → List (Report Time E) → Bool
brokers_down [] = false
brokers_down (delivery ev e ∷ rs) = brokers_down rs
brokers_down (kafka_error true ∷ rs) = true
brokers_down (kafka_error false ∷ rs) = brokers_down rs
brokers_down (unknown_event ∷ rs) = brokers_down rs

-- Whether a report is of a delivery without a topic, and none before it says that.
abbrev pub lacks_topic : {Time E : Type 0} → List (Report Time E) → Bool
lacks_topic [] = false
lacks_topic (delivery ev e ∷ rs) = not (is_some ev.topic) || lacks_topic rs
lacks_topic (kafka_error true ∷ rs) = false
lacks_topic (kafka_error false ∷ rs) = lacks_topic rs
lacks_topic (unknown_event ∷ rs) = lacks_topic rs

abbrev pub reports : {Time E : Type 0} → List (Report Time E) → List (Step Time E)
reports [] = []
reports (r ∷ rs) = reported r ∷ reports rs

module _ {Time E : Type 0} (has_callback has_hook : Bool) where
  -- The calls and starts for the deliveries up to the report that all brokers are down.
  unfoldable pub notices_for : List (Report Time E) → List (Notice Time E)
  notices_for [] = []
  notices_for (delivery ev e ∷ rs) = notices_of has_callback has_hook ev e ++ notices_for rs
  notices_for (kafka_error true ∷ rs) = []
  notices_for (kafka_error false ∷ rs) = notices_for rs
  notices_for (unknown_event ∷ rs) = notices_for rs

  abbrev stopped : List (Notice Time E) → Producer Time E
  stopped ns = record { done = true; running = false; notices = ns }

  abbrev open_with : List (Notice Time E) → Producer Time E
  open_with ns = record { done = false; running = true; notices = ns }

  abbrev panics : Option (Producer Time E)
  panics = none

  -- What comes of reports, which lack a topic or not, and of the steps after them.
  abbrev comes_of :
      Bool
      → List (Report Time E)
      → List (Step Time E)
      → List (Notice Time E)
      → Option (Producer Time E)
  comes_of lacks rs after ns =
      if lacks
      then none
      else (if brokers_down rs
          then run has_callback has_hook after (stopped ns)
          else run has_callback has_hook after (open_with ns))
