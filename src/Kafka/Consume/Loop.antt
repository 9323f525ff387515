-- ===== src/Kafka/Consume/Loop.antt =====
-- Which messages consumeLoop of kafka/consume.go handles, and how it ends.
use nexgo.Base.{true, false, List, [], ◌∷◌, ◌≡◌, refl}
use nexgo.Kafka.Consume.{
  Env, Settings, Polled, context_done, nothing, message, kafka_error, offsets_committed, stats,
  unknown_event, Ended, cancelled, err_consume, polling, handler_message, report_lag, consume_loop,
}

-- The events up to the first that ends the loop, and that end.
unfoldable pub before_end : {Msg E : Type 0} → List (Polled Msg E) → List (Polled Msg E) × Ended E
before_end [] = ([], polling)
before_end (context_done ∷ es) = ([], cancelled)
before_end (kafka_error true e ∷ es) = ([], err_consume e)
before_end (kafka_error false e ∷ es) = (kafka_error false e ∷ (before_end es).0, (before_end es).1)
before_end (nothing ∷ es) = (nothing ∷ (before_end es).0, (before_end es).1)
before_end (message m ∷ es) = (message m ∷ (before_end es).0, (before_end es).1)
before_end (offsets_committed e ∷ es) = (offsets_committed e ∷ (before_end es).0, (before_end es).1)
before_end (stats d ∷ es) = (stats d ∷ (before_end es).0, (before_end es).1)
before_end (unknown_event ∷ es) = (unknown_event ∷ (before_end es).0, (before_end es).1)

module _ {W Msg E : Type 0} (env : Env W Msg E) (c : Settings) where
  -- The effect of one event: a message is handled, whatever comes of it.
  abbrev pub effect : Polled Msg E → W → W
  effect (message m) w = (handler_message env c m w).1
  effect (stats d) w = report_lag env c env.hook d w
  effect context_done w = w
  effect nothing w = w
  effect (kafka_error b e) w = w
  effect (offsets_committed e) w = w
  effect unknown_event w = w

  unfoldable pub effects : List (Polled Msg E) → W → W
  effects [] w = w
  effects (e ∷ es) w = effects es (effect e w)

  -- The loop handles every message that is polled before the first event that ends it, in order and
  -- whether or not the handler failed on earlier ones, and reports the lags of the statistics; it
  -- ends with the context or with the error that all brokers are down, and with nothing else.
  pub consume_loop_lem :
      (es : List (Polled Msg E)) (w : W)
      → consume_loop env c es w ≡ ((before_end es).1, effects (before_end es).0 w)
  unfolding consume_loop before_end effects
  consume_loop_lem [] w = refl
  consume_loop_lem (context_done ∷ es) w = refl
  consume_loop_lem (kafka_error true e ∷ es) w = refl
  consume_loop_lem (kafka_error false e ∷ es) w = consume_loop_lem es w
  consume_loop_lem (nothing ∷ es) w = consume_loop_lem es w
  consume_loop_lem (message m ∷ es) w = consume_loop_lem es (handler_message env c m w).1
  consume_loop_lem (offsets_committed e ∷ es) w = consume_loop_lem es w
  consume_loop_lem (stats d ∷ es) w = consume_loop_lem es (report_lag env c env.hook d w)
  consume_loop_lem (unknown_event ∷ es) w = consume_loop_lem es w
