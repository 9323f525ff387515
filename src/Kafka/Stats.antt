-- ===== src/Kafka/Stats.antt =====
-- parseStatsLag of kafka/stats.go: the lag of each partition in the statistics of librdkafka.
-- json.Unmarshal is a parameter; a map of the document is the list of its entries, in the order in
-- which the loop meets them.
pub mod Reported
use nexgo.Base.{
  ℕ, ℤ, pos, negsuc, Text, Option, none, some, List, [], ◌∷◌, ◌++◌, is_negative, parse_int, wrap,
  if◌then◌else◌,
}

pub record StatsLag : Type 0 where
  pub topic : Text
  pub partition : ℤ
  pub lag : ℤ

-- The `topics` of the document, with the `partitions` of each and their `consumer_lag`.
abbrev pub Document : Type 0
Document = List (Text × List (Text × ℤ))

-- The entry of one partition: none where the loop continues. A partition is an int32.
abbrev pub entry : Text → Option ℤ → ℤ → List StatsLag
entry t none l = []
entry t (some (negsuc n)) l = []
entry t (some (pos n)) l =
    if is_negative l then [] else (record { topic = t; partition = wrap 31 n; lag = l } ∷ [])

abbrev pub partition_lags : Text → List (Text × ℤ) → List StatsLag
partition_lags t [] = []
partition_lags t ((p, l) ∷ ps) = entry t (parse_int p) l ++ partition_lags t ps

abbrev pub topic_lags : Document → List StatsLag
topic_lags [] = []
topic_lags ((t, ps) ∷ ts) = partition_lags t ps ++ topic_lags ts

unfoldable pub parse_stats_lag : (Text → Option Document) → Text → List StatsLag
parse_stats_lag unmarshal doc = elim (unmarshal doc) [ none ↦ [] | some root ↦ topic_lags root ]
