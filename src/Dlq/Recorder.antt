-- ===== src/Dlq/Recorder.antt =====
-- kafkaRecorder of dlq/recorder.go and the configuration of dlq/config.go: callers of Record, the
-- goroutine of loop, and Close. Where a select has several ready cases the choice is an argument. A
-- nil payload is left out: Record returns at once. Logging is left out.
pub mod Conservation
use nexgo.Base.{
  ℕ, suc, ◌%◌, ◌^◌, ℤ, pos, Text, Bool, true, false, not, ◌&&◌, Option, none, some, List, [], ◌∷◌,
  ◌++◌, length, ltb, ltb_ℤ, not_positive, if◌then◌else◌, ◌*◌,
}

pub record Config : Type 0 where
  pub topic : Text
  pub buffer_size : ℤ
  pub max_message_bytes : ℤ

unfoldable pub with_defaults : Config → Config
with_defaults c = record c {
  buffer_size = if not_positive c.buffer_size then pos 10000 else c.buffer_size;
  max_message_bytes =
      if not_positive c.max_message_bytes then pos (1024 * 1024) else c.max_message_bytes;
}

-- The message for the producer; its partition is always PartitionAny.
pub record Message : Type 0 where
  pub value : Text
  pub key : Text
  pub topic : Text

-- The payload's methods and the producer. An error counts as one, whatever it says.
pub record Env (W Payload : Type 0) : Type 0 where
  pub marshal : Payload → Option Text
  pub key : Payload → Text
  pub producer_produce : Message → W → Bool × W
  pub producer_close : W → Bool × W

-- The fields of the recorder, `running` for the goroutine of loop, and the state of the world.
pub record Recorder (W Payload : Type 0) : Type 0 where
  pub topic : Text
  pub max_bytes : ℤ
  pub capacity : ℕ
  pub ch : List Payload
  pub done : Bool
  pub dropped : ℕ
  pub produce_errors : ℕ
  pub running : Bool
  pub world : W

-- Adding one to a uint64
abbrev pub add_one : ℕ → ℕ
add_one n = suc n % 2 ^ 64

module _ {W Payload : Type 0} where
  abbrev pub send : Payload → Recorder W Payload → Recorder W Payload
  send p r = record r { ch = r.ch ++ (p ∷ []) }

  abbrev pub drop_one : Recorder W Payload → Recorder W Payload
  drop_one r = record r { dropped = add_one r.dropped }

  -- The second select of Record: send if there is room, return if done is closed, else count a drop.
  abbrev pub offer : Bool → Bool → Bool → Payload → Recorder W Payload → Recorder W Payload
  offer true true prefer_done p r = if prefer_done then r else send p r
  offer true false prefer_done p r = send p r
  offer false true prefer_done p r = r
  offer false false prefer_done p r = drop_one r

  unfoldable pub record_offer : Bool → Payload → Recorder W Payload → Recorder W Payload
  record_offer prefer_done p r = offer (ltb (length r.ch) r.capacity) r.done prefer_done p r

  -- Record, with no other goroutine between its two selects.
  unfoldable pub record_payload : Bool → Payload → Recorder W Payload → Recorder W Payload
  unfolding record_offer
  record_payload prefer_done p r = if r.done then r else record_offer prefer_done p r

  module _ (env : Env W Payload) where
    abbrev pub produced : Bool × W → Recorder W Payload → Recorder W Payload
    produced (true, w) r = record r { world = w }
    produced (false, w) r = record r { produce_errors = add_one r.produce_errors; world = w }

    abbrev pub too_large : ℤ → Text → Bool
    too_large most bytes = not (not_positive most) && ltb_ℤ most (pos (length bytes))

    abbrev pub produce_data : Option Text → Payload → Recorder W Payload → Recorder W Payload
    produce_data none p r = record r { produce_errors = add_one r.produce_errors }
    produce_data (some bytes) p r =
        if too_large r.max_bytes bytes
        then drop_one r
        else produced
            (env.producer_produce (record { value = bytes; key = env.key p; topic = r.topic })
              r.world)
            r

    unfoldable pub produce : Payload → Recorder W Payload → Recorder W Payload
    produce p r = produce_data (env.marshal p) p r

    abbrev pub wait_or_take : Bool → List Payload → Recorder W Payload → Recorder W Payload
    wait_or_take done [] r = if done then record r { running = false } else r
    wait_or_take done (p ∷ ps) r = produce p (record r { ch = ps })

    -- One turn of the goroutine: done leads to the drain, which ends on an empty buffer; so the turn
    -- takes a payload if there is one, and ends if there is none and done is closed.
    unfoldable pub loop_turn : Recorder W Payload → Recorder W Payload
    unfolding produce
    loop_turn r = if r.running then wait_or_take r.done r.ch r else r

    -- Close up to the wait for the goroutine. The flag `closed` of the source is set with done.
    unfoldable pub close : Recorder W Payload → Recorder W Payload
    close r = record r { done = true }

    -- Close after its flag is set: it waits for the goroutine (none) and then closes the producer.
    unfoldable pub close_wait : Recorder W Payload → Option (Bool × W)
    close_wait r = if r.running then none else some (env.producer_close r.world)

-- newKafkaRecorder, which starts the goroutine.
unfoldable pub new_recorder : {W Payload : Type 0} → Text → ℕ → ℤ → W → Recorder W Payload
new_recorder topic capacity max_bytes w = record {
  topic = topic;
  max_bytes = max_bytes;
  capacity = capacity;
  ch = [];
  done = false;
  dropped = 0;
  produce_errors = 0;
  running = true;
  world = w;
}
