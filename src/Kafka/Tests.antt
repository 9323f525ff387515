-- ===== src/Kafka/Tests.antt =====
-- The theorems about the consumer of package kafka at concrete inputs: a handler that fails as long
-- as the world, a number, is not 0, and a commit that adds 100.
use nexgo.Base.{
  ℕ, zero, suc, ◌+◌, ◌-◌, ◌^◌, ◌≤◌, ◌≡◌, ◌≢◌, refl, ◌↔◌, ◌⊎◌, ℤ, pos, Text, codes, Bool, true,
  false, Option, none, some, List, [], ◌∷◌, All, parse_int, wrap, not_positive, text_eq, ◌*◌,
}
use nexgo.Kafka.Config.{ConsumerConfig}
use nexgo.Kafka.Consume.{Env, Settings, Polled, message, kafka_error, handler_message, consume_loop}
use nexgo.Kafka.Consume.Retries.{Handled, Told, handler_message-Handled, no_retries_no_handler}
use nexgo.Kafka.Consume.Loop.{before_end, effects, consume_loop_lem}
use nexgo.Kafka.Stats.{Document, parse_stats_lag}
use nexgo.Kafka.Stats.Reported.{Listed, Reports, parse_stats_lag_lem}
use nexgo.Kafka.Producer.{Message, KafkaMessage, Report, delivery, Step, Producer}
use nexgo.Kafka.Producer
use nexgo.Kafka.Producer.Messages.{Produces, produce-Produces}
use mathlib.Core.List.{Memᴰ}

abbrev fail_down : ℕ → Option ℕ × ℕ
fail_down zero = (none, 0)
fail_down (suc n) = (some n, n)

abbrev broker : Env ℕ ℕ ℕ
broker = record {
  handler = λ m w. fail_down w;
  commit_message = λ m w. (none, w + 100);
  unmarshal = λ s. none;
  hook = none;
}

abbrev three_tries : Settings
three_tries = record { max_retries = pos 3; enable_auto_commit = false }

abbrev no_tries : Settings
no_tries = record { max_retries = pos 0; enable_auto_commit = false }

handler_message-Handled_example :
    Handled broker three_tries 7 3 2 (handler_message broker three_tries 7 2)
handler_message-Handled_example = handler_message-Handled broker three_tries 7 2 refl 2

-- The handler would fail, and the message is committed all the same.
no_retries_no_handler_example : Told broker no_tries 7 none 2 (handler_message broker no_tries 7 2)
no_retries_no_handler_example = no_retries_no_handler broker no_tries 7 refl 2

abbrev polls : List (Polled ℕ ℕ)
polls = message 1 ∷ kafka_error false 4 ∷ message 2 ∷ kafka_error true 5 ∷ message 3 ∷ []

consume_loop_example :
    consume_loop broker three_tries polls 9
    ≡ ((before_end polls).1, effects broker three_tries (before_end polls).0 9)
consume_loop_example = consume_loop_lem broker three_tries polls 9

abbrev document : Document
document =
    (
      codes "orders",
      (codes "0", pos 12) ∷ (codes "-1", pos 4) ∷ (codes "1", nexgo.Base.negsuc 0) ∷ [],
    )
    ∷ []

parse_stats_lag_example :
    All (Reports document) (parse_stats_lag (λ s. some document) [])
    × ((t p : Text) (n l : ℕ)
        → parse_int p ≡ some (pos n)
        → Listed t p (pos l) document
        → Memᴰ
            (record { topic = t; partition = wrap 31 n; lag = pos l })
            (parse_stats_lag (λ s. some document) []))
parse_stats_lag_example = parse_stats_lag_lem (λ s. some document) [] document refl

abbrev consumer : ConsumerConfig
consumer = record {
  brokers = codes "localhost:9092" ∷ [];
  group_id = codes "group";
  topics = codes "orders" ∷ [];
  max_retries = pos 0;
  instance_num = pos 1;
  auto_offset_reset = codes "latest";
  enable_auto_commit = false;
  auto_commit_interval = pos 0;
  session_timeout = pos 30;
  max_poll_interval = pos 300;
  security_protocol = codes "PLAINTEXT";
  debug = false;
  statistics_interval_ms = pos 0;
}

abbrev order_message : Message ℕ
order_message = record {
  topic = some (codes "orders");
  partition = nexgo.Base.negsuc 0;
  offset = pos 0;
  timestamp = 3;
  key = none;
  value = some (codes "42");
  headers = [];
}

produce-Produces_example : Produces {Time = ℕ} (nexgo.Base.negsuc 0) 0 order_message 5
produce-Produces_example = produce-Produces (nexgo.Base.negsuc 0) 0 order_message 5

abbrev delivered_order : KafkaMessage ℕ
delivered_order = record {
  topic = some (codes "orders");
  partition = pos 0;
  offset = pos 17;
  timestamp = 6;
  key = none;
  value = some (codes "42");
  headers = [];
  opaque = some 5;
}

abbrev last_reports : List (Report ℕ ℕ)
last_reports = delivery delivered_order (some 1) ∷ Producer.kafka_error false ∷ []
