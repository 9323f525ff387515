-- ===== src/Kafka/Producer/Messages.antt =====
-- What becomes of a message on its way through Produce and back in a delivery report.
use nexgo.Base.{
  ◌≡◌, refl, ap, ℤ, pos, Text, Bool, true, false, Option, none, some, List, ok, err, ◌≢◌,
  if◌then◌else◌, not, int_beq, int_beq-eq, sym,
}
use nexgo.Kafka.Producer.{
  Message, KafkaMessage, kafka_message, produce, from_kafka_message, topic_required, value_required,
}

kept_or_any : (client_any p : ℤ) → (if not (int_beq p client_any) then p else client_any) ≡ p
kept_or_any client_any p = by_test (int_beq p client_any) refl
  where
    by_test : (b : Bool) → int_beq p client_any ≡ b → (if not b then p else client_any) ≡ p
    by_test true e = sym (int_beq-eq p client_any e)
    by_test false e = refl

-- What Produce promises of a message.
unfoldable pub Produces : {Time : Type 0} → ℤ → Time → Message Time → Time → Type 0
Produces {Time} client_any zero_time m now =
    (m.topic ≡ none → produce client_any zero_time m now ≡ err topic_required)
    × (m.topic ≢ none → m.value ≡ none → produce client_any zero_time m now ≡ err value_required)
    × (m.topic ≢ none
        → m.value ≢ none
        → (k : KafkaMessage Time) × (produce client_any zero_time m now ≡ ok k)
          × (k.opaque ≡ some now)
          × (from_kafka_message k ≡ record m { offset = pos 0; timestamp = zero_time })
          × ((p o : ℤ) (sent_at : Time)
              → from_kafka_message (record k { partition = p; offset = o; timestamp = sent_at })
                ≡ record m { partition = p; offset = o; timestamp = sent_at }))

produced-Produces :
    {Time : Type 0} (client_any p o : ℤ) (zero_time at now : Time) (key : Option Text)
    (headers : List (Text × Text)) (t v : Option Text)
    → Produces client_any zero_time
        (record {
          topic = t;
          partition = p;
          offset = o;
          timestamp = at;
          key = key;
          value = v;
          headers = headers;
        })
        now
unfolding Produces produce from_kafka_message
produced-Produces client_any p o zero_time at now key headers none v =
    ((λ h. refl), (λ n h. absurd (n refl)), λ n h. absurd (n refl))
produced-Produces client_any p o zero_time at now key headers (some t) none =
    ((λ h. absurd (cc)), (λ n h. refl), λ n h. absurd (h refl))
produced-Produces client_any p o zero_time at now key headers (some t) (some v) =
    let m : Message _ = record {
      topic = some t;
      partition = p;
      offset = o;
      timestamp = at;
      key = key;
      value = some v;
      headers = headers;
    } in
    (
      (λ h. absurd (cc)),
      (λ n h. absurd (cc)),
      λ n h. (
        kafka_message client_any zero_time t v m now,
        refl,
        refl,
        ap
            (λ z. record {
              topic = some t;
              partition = z;
              offset = pos 0;
              timestamp = zero_time;
              key = key;
              value = some v;
              headers = headers;
            })
            (kept_or_any client_any p),
        λ q r sent_at. refl,
      ),
    )

-- Produce refuses a message with no topic or no value, the topic first. Any other message is handed to
-- the client with the produce time in Opaque, its topic, partition, key, value and headers, and with
-- the zero time and the offset 0 in place of its own timestamp and offset, which are lost. When a
-- delivery report brings it back with a partition, an offset and a timestamp, it converts to the
-- message that was given to Produce with these three in place of its own.
pub produce-Produces :
    {Time : Type 0} (client_any : ℤ) (zero_time : Time) (m : Message Time) (now : Time)
    → Produces client_any zero_time m now
produce-Produces client_any zero_time m now =
    produced-Produces client_any m.partition m.offset zero_time m.timestamp now m.key m.headers
      m.topic m.value
