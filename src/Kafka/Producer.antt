-- ===== src/Kafka/Producer.antt =====
-- The producer of kafka/producer.go: Produce, the conversion of a delivery report, the goroutine of
-- handleDeliveryReports and Close. A nil slice or pointer is `none`; nil headers and empty ones are
-- one list, as the code treats them. The goroutine calls the metrics hook itself, and starts another
-- goroutine for the failure callback, which nothing waits for: the log has the calls of the hook and
-- the starts of these goroutines, not when a callback runs.
pub mod Messages
pub mod Closing
use nexgo.Base.{
  ℤ, pos, is_some, int_beq, not, Text, Bool, true, false, Option, none, some, List, [], ◌∷◌, ◌++◌,
  Result, ok, err, if◌then◌else◌,
}

-- TopicPartition is written into the message.
pub record Message (Time : Type 0) : Type 0 where
  pub topic : Option Text
  pub partition : ℤ
  pub offset : ℤ
  pub timestamp : Time
  pub key : Option Text
  pub value : Option Text
  pub headers : List (Text × Text)

-- kafka.Message of the client, with the produce time in Opaque.
pub record KafkaMessage (Time : Type 0) : Type 0 where
  pub topic : Option Text
  pub partition : ℤ
  pub offset : ℤ
  pub timestamp : Time
  pub key : Option Text
  pub value : Option Text
  pub headers : List (Text × Text)
  pub opaque : Option Time

pub data ProduceError : Type 0 where
  topic_required value_required : ProduceError

module _ {Time : Type 0} (client_any : ℤ) (zero_time : Time) where
  -- The literal leaves Offset and Timestamp at their zero values.
  abbrev pub kafka_message : Text → Text → Message Time → Time → KafkaMessage Time
  kafka_message t v m now = record {
    topic = some t;
    partition = if not (int_beq m.partition client_any) then m.partition else client_any;
    offset = pos 0;
    timestamp = zero_time;
    key = m.key;
    value = some v;
    headers = m.headers;
    opaque = some now;
  }

  abbrev pub checked :
      Option Text → Option Text → Message Time → Time → Result ProduceError (KafkaMessage Time)
  checked none v m now = err topic_required
  checked (some t) none m now = err value_required
  checked (some t) (some v) m now = ok (kafka_message t v m now)

  -- Produce up to the client's call: the message that it is given. `client_any` is its
  -- PartitionAny, `zero_time` the zero value of time.Time.
  unfoldable pub produce : Message Time → Time → Result ProduceError (KafkaMessage Time)
  produce m now = checked m.topic m.value m now

unfoldable pub from_kafka_message : {Time : Type 0} → KafkaMessage Time → Message Time
from_kafka_message ev = record {
  topic = ev.topic;
  partition = ev.partition;
  offset = ev.offset;
  timestamp = ev.timestamp;
  key = ev.key;
  value = ev.value;
  headers = ev.headers;
}

-- What the client's channel of events holds: a report with its error, an error of kafka that says
-- whether all brokers are down, or something else.
pub data Report (Time E : Type 0) : Type 0 where
  delivery : KafkaMessage Time → Option E → Report Time E
  kafka_error : Bool → Report Time E
  unknown_event : Report Time E

-- A call of OnDelivery, with the produce time if there is one; and the start of a goroutine that is to
-- call OnDeliveryFailure.
pub data Notice (Time E : Type 0) : Type 0 where
  on_delivery : Text → Option E → Option Time → Notice Time E
  failure_routine : Message Time → E → Notice Time E

abbrev pub topic_or_empty : Option Text → Text
topic_or_empty none = []
topic_or_empty (some t) = t

-- The done channel, the goroutine, and the calls and starts it has made.
pub record Producer (Time E : Type 0) : Type 0 where
  pub done : Bool
  pub running : Bool
  pub notices : List (Notice Time E)

-- What can happen next: the goroutine takes a report or sees done closed, or Close is called.
pub data Step (Time E : Type 0) : Type 0 where
  reported : Report Time E → Step Time E
  done_seen : Step Time E
  close_called : Step Time E

module _ {Time E : Type 0} (has_callback has_hook : Bool) where
  abbrev pub notify_failure : KafkaMessage Time → E → List (Notice Time E)
  notify_failure ev e = if has_callback then failure_routine (from_kafka_message ev) e ∷ [] else []

  abbrev pub notify_delivery : KafkaMessage Time → Option E → List (Notice Time E)
  notify_delivery ev e =
      if has_hook then on_delivery (topic_or_empty ev.topic) e ev.opaque ∷ [] else []

  abbrev pub notices_of : KafkaMessage Time → Option E → List (Notice Time E)
  notices_of ev none = notify_delivery ev none
  notices_of ev (some e) = notify_failure ev e ++ notify_delivery ev (some e)

  -- close(kp.done): `none` is the panic of closing it twice.
  abbrev pub close_done : Producer Time E → Option (Producer Time E)
  close_done p = if p.done then none else some (record p { done = true })

  abbrev pub stop : Option (Producer Time E) → Option (Producer Time E)
  stop none = none
  stop (some p) = some (record p { running = false })

  -- The goroutine logs the topic of a delivery, and dereferences its pointer for that: `none` is the
  -- panic where there is none, which nothing recovers. A hook that panics is not modelled.
  abbrev pub handle : Report Time E → Producer Time E → Option (Producer Time E)
  handle (delivery ev e) p =
      if is_some ev.topic then some (record p { notices = p.notices ++ notices_of ev e }) else none
  handle (kafka_error all_down) p = if all_down then stop (close_done p) else some p
  handle unknown_event p = some p

  -- A turn of handleDeliveryReports, which is none once the goroutine has returned; and Close up to
  -- its wait.
  unfoldable pub step : Step Time E → Producer Time E → Option (Producer Time E)
  step (reported r) p = if p.running then handle r p else some p
  step done_seen p = if p.done then some (record p { running = false }) else some p
  step close_called p = close_done p

  unfoldable pub run : List (Step Time E) → Producer Time E → Option (Producer Time E)
  unfolding step
  run [] p = some p
  run (s ∷ ss) p = elim (step s p) [ none ↦ none | some q ↦ run ss q ]

-- The producer that NewProducer returns.
abbrev pub started : {Time E : Type 0} → Producer Time E
started = record { done = false; running = true; notices = [] }
