-- ===== src/Kafka/Consumer.antt =====
-- The consumer of kafka/consumer.go, with the making and closing of its instances in kafka/consume.go.
-- The client library is a parameter. A client is known by the number of those made before it; which
-- of them are open is kept beside the state of the world.
pub mod Clients
pub mod Closed
mod Tests
use nexgo.Base.{
  ℕ, zero, suc, ◌+◌, ℤ, pos, negsuc, Text, codes, Bool, true, false, Option, none, some, List, [],
  ◌∷◌, ◌++◌, map, length, modify, Result, ok, err, format_int, if◌then◌else◌,
}
use nexgo.Kafka.Config.{ConsumerConfig, ConfigError, validate_consumer, is_empty}

unfoldable pub default_consumer_config : ConsumerConfig
default_consumer_config = record {
  brokers = [];
  group_id = [];
  topics = [];
  max_retries = pos 3;
  instance_num = pos 1;
  auto_offset_reset = codes "latest";
  enable_auto_commit = false;
  auto_commit_interval = pos 5000000000;
  session_timeout = pos 30000000000;
  max_poll_interval = pos 120000000000;
  security_protocol = codes "PLAINTEXT";
  debug = false;
  statistics_interval_ms = pos 0;
}

pub data ConsumerError : Type 0 where
  invalid_config : ConfigError → ConsumerError
  bad_cluster connection no_consumer_instances : ConsumerError
  subscribe_failed : List Text → ConsumerError

-- Whether calls of the client library go well: validateKafkaCluster, kafka.NewConsumer with the map of
-- BuildConfigMap, and SubscribeTopics of a client.
pub record Client (W : Type 0) : Type 0 where
  pub is_valid_cluster : List Text → W → Bool × W
  pub new_client : ConsumerConfig → W → Bool × W
  pub subscribe_topics : ℕ → List Text → W → Bool × W
  pub close_client : ℕ → W → W

pub record Host (W : Type 0) : Type 0 where
  pub world : W
  pub are_open : List Bool

pub record Instance : Type 0 where
  pub name : Text
  pub client : ℕ
  pub is_closed : Bool

pub record Consumer : Type 0 where
  pub instances : List Instance
  pub is_closed : Bool

abbrev pub closed : Bool → Bool
closed b = false

abbrev pub instance_name : ConsumerConfig → ℕ → Text
instance_name c i = c.group_id ++ (codes "-instance-" ++ format_int (pos (i + 1)))

abbrev pub or_default : Option ConsumerConfig → ConsumerConfig
or_default none = default_consumer_config
or_default (some c) = c

-- Start: the instances whose loop is started, each in a goroutine.
unfoldable pub start_consumer : Consumer → Option ConsumerError × List Instance
start_consumer c = elim c.instances [
  | [] ↦ (some no_consumer_instances, [])
  | i ∷ is ↦ (none, i ∷ is)
]

module _ {W : Type 0} (client : Client W) where
  unfoldable pub close_one : ℕ → Host W → Host W
  close_one n h = record {
    world = client.close_client n h.world;
    are_open = modify closed n h.are_open;
  }

  abbrev pub subscribed :
      Text → List Text → ℕ → Bool × W → Host W → Result ConsumerError Instance × Host W
  subscribed name topics n (true, w) h =
      (ok record { name = name; client = n; is_closed = false }, record h { world = w })
  subscribed name topics n (false, w) h =
      (err (subscribe_failed topics), close_one n (record h { world = w }))

  abbrev pub connected :
      Text → List Text → Bool × W → Host W → Result ConsumerError Instance × Host W
  connected name topics (false, w) h = (err connection, record h { world = w })
  connected name topics (true, w) h =
      subscribed name topics (length h.are_open)
        (client.subscribe_topics (length h.are_open) topics w)
        (record { world = w; are_open = h.are_open ++ (true ∷ []) })

  unfoldable pub new_consume_instance :
      Text → ConsumerConfig → Host W → Result ConsumerError Instance × Host W
  unfolding close_one
  new_consume_instance name c h = connected name c.topics (client.new_client c h.world) h

  abbrev pub before_others :
      Instance
      → Result ConsumerError (List Instance) × Host W
      → Result ConsumerError (List Instance) × Host W
  before_others made (err e, h) = (err e, h)
  before_others made (ok others, h) = (ok (made ∷ others), h)

  abbrev pub then_make :
      (Host W → Result ConsumerError (List Instance) × Host W)
      → Result ConsumerError Instance × Host W
      → Result ConsumerError (List Instance) × Host W
  then_make rest (err e, h) = (err e, h)
  then_make rest (ok made, h) = before_others made (rest h)

  -- The loop of NewConsumer, with so many instances left, from instance `i`.
  unfoldable pub make_instances :
      ℕ → ℕ → ConsumerConfig → Host W → Result ConsumerError (List Instance) × Host W
  unfolding new_consume_instance
  make_instances zero i c h = (ok [], h)
  make_instances (suc left) i c h =
      then_make (make_instances left (suc i) c) (new_consume_instance (instance_name c i) c h)

  abbrev pub assembled :
      Result ConsumerError (List Instance) × Host W → Result ConsumerError Consumer × Host W
  assembled (err e, h) = (err e, h)
  assembled (ok instances, h) = (ok record { instances = instances; is_closed = false }, h)

  -- `none` is the panic of make with a negative length.
  abbrev pub instances_for :
      ℤ → ConsumerConfig → Host W → Option (Result ConsumerError Consumer × Host W)
  instances_for (negsuc n) c h = none
  instances_for (pos n) c h = some (assembled (make_instances n 0 c h))

  abbrev pub in_cluster :
      Bool × W → ConsumerConfig → Host W → Option (Result ConsumerError Consumer × Host W)
  in_cluster (false, w) c h = some (err bad_cluster, record h { world = w })
  in_cluster (true, w) c h = instances_for c.instance_num c (record h { world = w })

  abbrev pub validated :
      Option ConfigError → ConsumerConfig → Host W → Option (Result ConsumerError Consumer × Host W)
  validated (some e) c h = some (err (invalid_config e), h)
  validated none c h = in_cluster (client.is_valid_cluster c.brokers h.world) c h

  unfoldable pub new_consumer :
      Option ConsumerConfig → Host W → Option (Result ConsumerError Consumer × Host W)
  unfolding validate_consumer make_instances
  new_consumer config h = validated (validate_consumer (or_default config)) (or_default config) h

  -- Close of one instance, whose client is closed once only.
  abbrev pub close_instance : Instance → Host W → Instance × Host W
  close_instance i h =
      if i.is_closed then (i, h) else (record i { is_closed = true }, close_one i.client h)

  abbrev pub close_instances : List Instance → Host W → List Instance × Host W
  close_instances [] h = ([], h)
  close_instances (i ∷ is) h =
      let (i', h') = close_instance i h in let (is', h'') = close_instances is h' in (i' ∷ is', h'')

  abbrev pub close_all : List Instance → Host W → Option ConsumerError × Consumer × Host W
  close_all [] h = (some no_consumer_instances, record { instances = []; is_closed = true }, h)
  close_all (i ∷ is) h =
      let (is', h') = close_instances (i ∷ is) h in
      (none, record { instances = is'; is_closed = true }, h')

  unfoldable pub close_consumer : Consumer → Host W → Option ConsumerError × Consumer × Host W
  unfolding close_one
  close_consumer c h = if c.is_closed then (none, c, h) else close_all c.instances h
