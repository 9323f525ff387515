-- ===== src/Kafka/Stats/Reported.antt =====
-- Which partitions parseStatsLag of kafka/stats.go reports.
use nexgo.Base.{
  ℕ, ◌≡◌, refl, ℤ, pos, negsuc, Text, Option, none, some, List, [], ◌∷◌, ◌++◌, false, is_negative,
  parse_int, wrap, All, All-append, sym, subst,
}
use nexgo.Kafka.Stats.{StatsLag, Document, entry, partition_lags, topic_lags, parse_stats_lag}
use mathlib.Core.List.{Memᴰ}
use mathlib.Core.List.Memᴰ.{head, tail}

-- `Listed root t p l`: under the topic `t`, the document has the partition `p` with the lag `l`.
pub data ListedIn (p : Text) (l : ℤ) : List (Text × ℤ) → Type 0 where
  at_head : (ps : List (Text × ℤ)) → ListedIn p l ((p, l) ∷ ps)
  further : (q : Text × ℤ) (ps : List (Text × ℤ)) → ListedIn p l ps → ListedIn p l (q ∷ ps)

pub data Listed (t p : Text) (l : ℤ) : Document → Type 0 where
  at_topic : (ps : List (Text × ℤ)) (ts : Document) → ListedIn p l ps → Listed t p l ((t, ps) ∷ ts)
  later : (q : Text × List (Text × ℤ)) (ts : Document) → Listed t p l ts → Listed t p l (q ∷ ts)

-- Where an entry comes from: a partition of the document with a number and a known lag.
unfoldable pub Reports : Document → StatsLag → Type 0
Reports root e =
    (p : Text) × (n : ℕ) × Listed e.topic p e.lag root
    × (parse_int p ≡ some (pos n))
    × (is_negative e.lag ≡ false)
    × (e.partition ≡ wrap 31 n)

abbrev ReportsIn : Text → List (Text × ℤ) → StatsLag → Type 0
ReportsIn t ps e =
    (p : Text) × (n : ℕ) × (e.topic ≡ t)
    × ListedIn p e.lag ps
    × (parse_int p ≡ some (pos n))
    × (is_negative e.lag ≡ false)
    × (e.partition ≡ wrap 31 n)

All-implies {ℓ κ μ} :
    {A : Type ℓ} (P : A → Type κ) (Q : A → Type μ)
    → ((x : A) → P x → Q x)
    → (xs : List A) → All P xs
    → All Q xs
All-implies P Q f [] h = tt
All-implies P Q f (x ∷ xs) h = (f x h.0, All-implies P Q f xs h.1)

entry-Reports :
    (t p : Text) (ps : List (Text × ℤ)) (o : Option ℤ) (l : ℤ)
    → parse_int p ≡ o
    → All (ReportsIn t ((p, l) ∷ ps)) (entry t o l)
entry-Reports t p ps none l e = tt
entry-Reports t p ps (some (negsuc n)) l e = tt
entry-Reports t p ps (some (pos n)) (negsuc l) e = tt
entry-Reports t p ps (some (pos n)) (pos l) e = ((p, n, refl, at_head ps, e, refl, refl), tt)

partition_lags-Reports :
    (t : Text) (ps : List (Text × ℤ)) → All (ReportsIn t ps) (partition_lags t ps)
partition_lags-Reports t [] = tt
partition_lags-Reports t ((p, l) ∷ ps) =
    All-append _ (entry t (parse_int p) l) (partition_lags t ps)
      (entry-Reports t p ps (parse_int p) l refl)
      (All-implies (ReportsIn t ps) _
        (λ e h.
          let (q, n, same, at, read, known, number) = h in
          (q, n, same, further (p, l) ps at, read, known, number))
        (partition_lags t ps) (partition_lags-Reports t ps))

at_topic-Reports :
    (t : Text) (ps : List (Text × ℤ)) (ts : Document) (e : StatsLag)
    → ReportsIn t ps e
    → Reports ((t, ps) ∷ ts) e
unfolding Reports
at_topic-Reports t ps ts e h =
    let (q, n, same, at, read, known, number) = h in
    (
      q,
      n,
      subst (λ z. Listed z q e.lag ((t, ps) ∷ ts)) (sym same) (at_topic ps ts at),
      read,
      known,
      number,
    )

-- Every entry that is reported stands in the document, under its topic, with a partition that is
-- written as a number that is not negative and fits an int, of which it has the low 32 bits, and
-- with a lag that is not negative.
pub topic_lags-Reports : (root : Document) → All (Reports root) (topic_lags root)
unfolding Reports
topic_lags-Reports [] = tt
topic_lags-Reports ((t, ps) ∷ ts) =
    All-append _ (partition_lags t ps) (topic_lags ts)
      (All-implies (ReportsIn t ps) _ (at_topic-Reports t ps ts) (partition_lags t ps)
        (partition_lags-Reports t ps))
      (All-implies (Reports ts) _
        (λ e h.
          let (q, n, at, read, known, number) = h in
          (q, n, later (t, ps) ts at, read, known, number))
        (topic_lags ts) (topic_lags-Reports ts))

Memᴰ-append_left {ℓ} : {A : Type ℓ} (x : A) (xs ys : List A) → Memᴰ x xs → Memᴰ x (xs ++ ys)
Memᴰ-append_left x [] ys h = elim h [ ]
Memᴰ-append_left x (y ∷ xs) ys (head e) = head e
Memᴰ-append_left x (y ∷ xs) ys (tail h) = tail (Memᴰ-append_left x xs ys h)

Memᴰ-append_right {ℓ} : {A : Type ℓ} (x : A) (xs ys : List A) → Memᴰ x ys → Memᴰ x (xs ++ ys)
Memᴰ-append_right x [] ys h = h
Memᴰ-append_right x (y ∷ xs) ys h = tail (Memᴰ-append_right x xs ys h)

module _ (t p : Text) (n l : ℕ) (e : parse_int p ≡ some (pos n)) where
  abbrev reported : StatsLag
  reported = record { topic = t; partition = wrap 31 n; lag = pos l }

  ListedIn-Memᴰ :
      (ps : List (Text × ℤ)) → ListedIn p (pos l) ps → Memᴰ reported (partition_lags t ps)
  ListedIn-Memᴰ _ (at_head ps) =
      subst (λ o. Memᴰ reported (entry t o (pos l) ++ partition_lags t ps)) (sym e) (head refl)
  ListedIn-Memᴰ _ (further q ps h) =
      Memᴰ-append_right reported (entry t (parse_int q.0) q.1) (partition_lags t ps)
        (ListedIn-Memᴰ ps h)

  Listed-Memᴰ : (root : Document) → Listed t p (pos l) root → Memᴰ reported (topic_lags root)
  Listed-Memᴰ _ (at_topic ps ts h) =
      Memᴰ-append_left reported (partition_lags t ps) (topic_lags ts) (ListedIn-Memᴰ ps h)
  Listed-Memᴰ _ (later q ts h) =
      Memᴰ-append_right reported (partition_lags q.0 q.1) (topic_lags ts) (Listed-Memᴰ ts h)

-- Of a document that json.Unmarshal accepts, exactly the partitions with a number that is not
-- negative and a lag that is not negative are reported: every reported entry stands in the document
-- as such a partition, and every such partition is reported, its number as an int32.
pub parse_stats_lag_lem :
    (unmarshal : Text → Option Document) (doc : Text) (root : Document)
    → unmarshal doc ≡ some root
    → All (Reports root) (parse_stats_lag unmarshal doc)
      × ((t p : Text) (n l : ℕ)
          → parse_int p ≡ some (pos n)
          → Listed t p (pos l) root
          → Memᴰ
              (record { topic = t; partition = wrap 31 n; lag = pos l })
              (parse_stats_lag unmarshal doc))
unfolding parse_stats_lag
parse_stats_lag_lem unmarshal doc root e =
    subst
      (λ (o : Option Document).
        All (Reports root) (elim o [ none ↦ [] | some r ↦ topic_lags r ])
        × ((t p : Text) (n l : ℕ)
            → parse_int p ≡ some (pos n)
            → Listed t p (pos l) root
            → Memᴰ (record { topic = t; partition = wrap 31 n; lag = pos l })
                (elim o [ none ↦ [] | some r ↦ topic_lags r ])))
      (sym e) (topic_lags-Reports root, λ t p n l read at. Listed-Memᴰ t p n l read root at)
