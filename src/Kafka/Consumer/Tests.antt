-- ===== src/Kafka/Consumer/Tests.antt =====
-- NewConsumer, Start and Close of kafka/consumer.go at concrete inputs.
use nexgo.Base.{ℕ, suc, ◌≡◌, refl, pos, negsuc, codes, true, false, none, some, [], ◌∷◌, err, ltb}
use nexgo.Kafka.Config.{ConsumerConfig, validate_consumer}
use nexgo.Kafka.Consumer.{
  no_consumer_instances, subscribe_failed, Client, Host, new_consumer, new_consume_instance,
  make_instances, close_one, start_consumer,
}
use nexgo.Kafka.Consumer.Closed.{Leaves, new_consumer-Leaves}

-- A client library whose world counts the subscriptions; from the third on they fail.
abbrev two_only : Client ℕ
two_only = record {
  is_valid_cluster = λ brokers w. (true, w);
  new_client = λ c w. (true, w);
  subscribe_topics = λ n topics w. (ltb w 2, suc w);
  close_client = λ n w. w;
}

abbrev of_three : ConsumerConfig
of_three = record {
  brokers = codes "b:9092" ∷ [];
  group_id = codes "g";
  topics = codes "t" ∷ [];
  max_retries = pos 3;
  instance_num = pos 3;
  auto_offset_reset = codes "latest";
  enable_auto_commit = false;
  auto_commit_interval = pos 5000000000;
  session_timeout = pos 30000000000;
  max_poll_interval = pos 120000000000;
  security_protocol = codes "PLAINTEXT";
  debug = false;
  statistics_interval_ms = pos 0;
}

abbrev at_start : Host ℕ
at_start = record { world = 0; are_open = [] }

third_fails :
    new_consumer two_only (some of_three) at_start
    ≡ some (
      err (subscribe_failed (codes "t" ∷ [])),
      record { world = 3; are_open = true ∷ true ∷ false ∷ [] },
    )
unfolding new_consumer validate_consumer make_instances new_consume_instance close_one
third_fails = refl

negative_panics :
    new_consumer two_only (some (record of_three { instance_num = negsuc 0 })) at_start ≡ none
unfolding new_consumer validate_consumer
negative_panics = refl

nothing_started :
    start_consumer (record { instances = []; is_closed = false }) ≡ (some no_consumer_instances, [])
unfolding start_consumer
nothing_started = refl

new_consumer-Leaves_example :
    Leaves two_only of_three [] (new_consumer two_only (some of_three) at_start)
new_consumer-Leaves_example = new_consumer-Leaves two_only (some of_three) at_start
