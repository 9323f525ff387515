-- ===== src/Kafka/Consume.antt =====
-- One consumer instance of kafka/consume.go: handlerMessage and consumeLoop. The topic of a polled
-- message is set. Logging is left out.
pub mod Retries
pub mod Loop
use nexgo.Base.{
  ℕ, zero, suc, ℤ, pos, negsuc, Bool, true, false, not, Option, none, some, List, [], ◌∷◌, Text,
  if◌then◌else◌,
}
use nexgo.Kafka.Stats.{StatsLag, Document, parse_stats_lag}

-- The error of a message: the handler's own, or ErrCommit of the commit's.
pub data Failure (E : Type 0) : Type 0 where
  returned : E → Failure E
  err_commit : E → Failure E

pub record Hook (W Msg E : Type 0) : Type 0 where
  pub on_consume : Msg → Option (Failure E) → W → W
  pub on_lag : StatsLag → W → W

-- The instance's calls of what it does not implement: the handler, kafka.Consumer.CommitMessage,
-- json.Unmarshal of the statistics, and the metrics hook, which is nil or set. `W` is the state of
-- the world.
pub record Env (W Msg E : Type 0) : Type 0 where
  pub handler : Msg → W → Option E × W
  pub commit_message : Msg → W → Option E × W
  pub unmarshal : Text → Option Document
  pub hook : Option (Hook W Msg E)

pub record Settings : Type 0 where
  pub max_retries : ℤ
  pub enable_auto_commit : Bool

-- The rounds of `for i := 1; i <= c.config.MaxRetries; i++`
abbrev pub rounds : ℤ → ℕ
rounds (pos n) = n
rounds (negsuc n) = 0

-- What Poll returns, or the context being done. An error of kafka may say that all brokers are down.
pub data Polled (Msg E : Type 0) : Type 0 where
  context_done : Polled Msg E
  nothing : Polled Msg E
  message : Msg → Polled Msg E
  kafka_error : Bool → E → Polled Msg E
  offsets_committed : Option E → Polled Msg E
  stats : Text → Polled Msg E
  unknown_event : Polled Msg E

-- How the loop ends: with the context's error, with ErrConsume, or not yet.
pub data Ended (E : Type 0) : Type 0 where
  cancelled : Ended E
  err_consume : E → Ended E
  polling : Ended E

module _ {W Msg E : Type 0} (env : Env W Msg E) (c : Settings) where
  abbrev pub unless_done : Option E × W → (Option E × W → Option E × W) → Option E × W
  unless_done (none, w) again = (none, w)
  unless_done (some e, w) again = again (some e, w)

  -- The loop over the attempts after a first one.
  unfoldable pub attempts : ℕ → Msg → Option E × W → Option E × W
  attempts zero m r = r
  attempts (suc left) m (err, w) = unless_done (env.handler m w) (attempts left m)

  abbrev pub committed : Option E × W → Option (Failure E) × W
  committed (none, w) = (none, w)
  committed (some e, w) = (some (err_commit e), w)

  abbrev pub commit_unless_auto : Msg → Option E × W → Option (Failure E) × W
  commit_unless_auto m (some e, w) = (some (returned e), w)
  commit_unless_auto m (none, w) =
      if not c.enable_auto_commit then committed (env.commit_message m w) else (none, w)

  -- The deferred report of the final error.
  abbrev pub report : Option (Hook W Msg E) → Msg → Option (Failure E) × W → Option (Failure E) × W
  report none m r = r
  report (some hook) m (err, w) = (err, hook.on_consume m err w)

  unfoldable pub handler_message : Msg → W → Option (Failure E) × W
  unfolding attempts
  handler_message m w =
      report env.hook m (commit_unless_auto m (attempts (rounds c.max_retries) m (none, w)))

  abbrev pub each_lag : Hook W Msg E → List StatsLag → W → W
  each_lag hook [] w = w
  each_lag hook (l ∷ ls) w = each_lag hook ls (hook.on_lag l w)

  abbrev pub report_lag : Option (Hook W Msg E) → Text → W → W
  report_lag none doc w = w
  report_lag (some hook) doc w = each_lag hook (parse_stats_lag env.unmarshal doc) w

  unfoldable pub consume_loop : List (Polled Msg E) → W → Ended E × W
  unfolding handler_message
  consume_loop [] w = (polling, w)
  consume_loop (context_done ∷ es) w = (cancelled, w)
  consume_loop (nothing ∷ es) w = consume_loop es w
  consume_loop (message m ∷ es) w = consume_loop es (handler_message m w).1
  consume_loop (kafka_error all_down e ∷ es) w =
      let rest = consume_loop es w in if all_down then (err_consume e, w) else rest
  consume_loop (offsets_committed e ∷ es) w = consume_loop es w
  consume_loop (stats doc ∷ es) w = consume_loop es (report_lag env.hook doc w)
  consume_loop (unknown_event ∷ es) w = consume_loop es w
