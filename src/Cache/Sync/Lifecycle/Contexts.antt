-- ===== src/Cache/Sync/Lifecycle/Contexts.antt =====
-- Which contexts of cache/syncable_cache.go the calls of Start and Stop cancel.
use nexgo.Base.{
  ℕ, zero, suc, ◌+◌, ◌≡◌, refl, ap, sym, ◌∙◌, Bool, true, false, ◌||◌, Option, none, some, List, [],
  ◌∷◌, ◌++◌, ◌⊎◌, inl, inr, arith, nat_beq, nat_beq_iff, Bool-cases, subst,
}
use nexgo.Cache.Sync.{SyncError}
use nexgo.Cache.Sync.Lifecycle.{
  Running, Event, start_called, first_synced, first_panicked, stop_called, done_seen,
  source_panicked, is_member, cancel_context, act, stop_once,
}

-- The contexts that these events make.
abbrev pub starts : List Event → ℕ
starts [] = 0
starts (start_called ∷ events) = suc (starts events)
starts (_ ∷ events) = starts events

abbrev pub stops : List Event → Bool
stops [] = false
stops (stop_called ∷ events) = true
stops (_ ∷ events) = stops events

-- The last of so many contexts.
abbrev pub last_context : ℕ → Option ℕ
last_context zero = none
last_context (suc n) = some n

abbrev pub to_list : Option ℕ → List ℕ
to_list none = []
to_list (some n) = n ∷ []

-- The contexts of the goroutines that these events start, where `n` contexts were made before: each
-- successful end of a first synchronisation starts one, with the last context made.
abbrev pub begun : ℕ → List Event → List ℕ
begun n [] = []
begun n (start_called ∷ events) = begun (suc n) events
begun n (first_synced none ∷ events) = to_list (last_context n) ++ begun n events
begun n (_ ∷ events) = begun n events

-- An event that cancels a context, after those before it: a first synchronisation that fails, or the
-- first call of Stop.
abbrev pub IsCancelling : List Event → Event → Type 0
IsCancelling before e =
    ((f : SyncError) × (e ≡ first_synced (some f))) ⊎ ((e ≡ stop_called) × (stops before ≡ false))

-- At one of these events the context `n` is the last made, and the event cancels it.
unfoldable pub Cancels : ℕ → List Event → Type 0
Cancels n events =
    (before : List Event) × (e : Event) × (after : List Event) × (events ≡ before ++ (e ∷ after))
    × (starts before ≡ suc n)
    × IsCancelling before e

-- The fields as the events before make them.
pub record Tidy (before : List Event) (r : Running) : Type 0 where
  pub contexts_made : r.contexts ≡ starts before
  pub current_last : r.current ≡ last_context (starts before)
  pub stopped_by : r.is_stopped ≡ stops before

starts-snoc : (es : List Event) (e : Event) → starts (es ++ (e ∷ [])) ≡ starts (e ∷ []) + starts es
starts-snoc [] e = omega arith
starts-snoc (start_called ∷ es) e = omega (arith, starts-snoc es e)
starts-snoc (first_synced o ∷ es) e = starts-snoc es e
starts-snoc (first_panicked ∷ es) e = starts-snoc es e
starts-snoc (stop_called ∷ es) e = starts-snoc es e
starts-snoc (done_seen i ∷ es) e = starts-snoc es e
starts-snoc (source_panicked i ∷ es) e = starts-snoc es e

stops-snoc : (es : List Event) (e : Event) → stops (es ++ (e ∷ [])) ≡ stops (e ∷ []) || stops es
stops-snoc [] e = ground arith
stops-snoc (start_called ∷ es) e = stops-snoc es e
stops-snoc (first_synced o ∷ es) e = stops-snoc es e
stops-snoc (first_panicked ∷ es) e = stops-snoc es e
stops-snoc (stop_called ∷ es) e = ground arith
stops-snoc (done_seen i ∷ es) e = stops-snoc es e
stops-snoc (source_panicked i ∷ es) e = stops-snoc es e

pub stop_once-first :
    (r : Running)
    → r.is_stopped ≡ false
    → stop_once r ≡ record r { is_stopped = true; cancelled = cancel_context r.current r.cancelled }
stop_once-first r h = rw h refl

pub stop_once-again : (r : Running) → r.is_stopped ≡ true → stop_once r ≡ r
stop_once-again r h = rw h refl

-- An event that makes no context and does not stop.
same-Tidy :
    (before : List Event) (e : Event) (r r' : Running)
    → starts (e ∷ []) ≡ 0
    → stops (e ∷ []) ≡ false
    → r'.contexts ≡ r.contexts
    → r'.current ≡ r.current
    → r'.is_stopped ≡ r.is_stopped
    → Tidy before r
    → Tidy (before ++ (e ∷ [])) r'
same-Tidy before e r r' a b made cur is t =
    let same : starts (before ++ (e ∷ [])) ≡ starts before =
      omega (arith, starts-snoc before e, a) in
    record {
      contexts_made = made ∙ t.contexts_made ∙ sym same;
      current_last = cur ∙ t.current_last ∙ ap last_context (sym same);
      stopped_by = is ∙ t.stopped_by ∙ sym (stops-snoc before e ∙ ap (λ c. c || stops before) b);
    }

pub act-Tidy :
    (before : List Event) (e : Event) (r : Running)
    → Tidy before r
    → Tidy (before ++ (e ∷ [])) (act e r)
unfolding act
act-Tidy before start_called r t =
    let more = starts-snoc before start_called in
    record {
      contexts_made = omega (arith, more, t.contexts_made);
      current_last = ap last_context {x = suc r.contexts} (omega (arith, more, t.contexts_made));
      stopped_by = t.stopped_by ∙ sym (stops-snoc before start_called);
    }
act-Tidy before (first_synced none) r t = same-Tidy before _ r _ refl refl refl refl refl t
act-Tidy before (first_synced (some f)) r t = same-Tidy before _ r _ refl refl refl refl refl t
act-Tidy before first_panicked r t = same-Tidy before _ r _ refl refl refl refl refl t
act-Tidy before stop_called r t =
    let same : starts (before ++ (stop_called ∷ [])) ≡ starts before =
      omega (arith, starts-snoc before stop_called) in
    record {
      contexts_made = fields.0 ∙ t.contexts_made ∙ sym same;
      current_last = fields.1 ∙ t.current_last ∙ ap last_context (sym same);
      stopped_by = fields.2 ∙ sym (stops-snoc before stop_called);
    }
  where
    fields :
        ((stop_once r).contexts ≡ r.contexts)
        × ((stop_once r).current ≡ r.current)
        × ((stop_once r).is_stopped ≡ true)
    fields = elim (Bool-cases r.is_stopped) [
      | inl is ↦ rw is (refl, refl, refl)
      | inr not_yet ↦ rw not_yet (refl, refl, refl)
    ]
act-Tidy before (done_seen i) r t = same-Tidy before _ r _ refl refl refl refl refl t
act-Tidy before (source_panicked i) r t = same-Tidy before _ r _ refl refl refl refl refl t

-- cancel() of the context that the field holds.
is_member-cancel_context :
    (n : ℕ) (o : Option ℕ) (ns : List ℕ)
    → is_member n (cancel_context o ns) ≡ true
    → (is_member n ns ≡ true) ⊎ (o ≡ some n)
is_member-cancel_context n none ns h = inl h
is_member-cancel_context n (some m) ns h = elim (Bool-cases (nat_beq n m)) [
  | inl same ↦ inr (ap some (sym ((nat_beq_iff n m).0 same)))
  | inr other ↦ inl (ground (arith, h, other))
]

pub cancelled_kept :
    (n : ℕ) (o : Option ℕ) (ns : List ℕ)
    → is_member n ns ≡ true
    → is_member n (cancel_context o ns) ≡ true
cancelled_kept n none ns h = h
cancelled_kept n (some m) ns h = ground (arith, h)

current_cancelled :
    (n : ℕ) (o : Option ℕ) (ns : List ℕ) → o ≡ some n → is_member n (cancel_context o ns) ≡ true
current_cancelled n none ns h = absurd (cc)
current_cancelled n (some m) ns h = ground arith

last_context-suc : (n m : ℕ) → last_context m ≡ some n → m ≡ suc n
last_context-suc n zero h = absurd (cc)
last_context-suc n (suc m) h = cc

pub act_keeps :
    (e : Event) (r : Running) (n : ℕ)
    → is_member n r.cancelled ≡ true
    → is_member n (act e r).cancelled ≡ true
unfolding act
act_keeps start_called r n h = h
act_keeps (first_synced none) r n h = h
act_keeps (first_synced (some f)) r n h = cancelled_kept n r.current r.cancelled h
act_keeps first_panicked r n h = h
act_keeps stop_called r n h = elim (Bool-cases r.is_stopped) [
  | inl is ↦ subst (λ r'. is_member n r'.cancelled ≡ true) (sym (stop_once-again r is)) h
  | inr not_yet ↦
      subst (λ r'. is_member n r'.cancelled ≡ true) (sym (stop_once-first r not_yet))
        (cancelled_kept n r.current r.cancelled h)
]
act_keeps (done_seen i) r n h = h
act_keeps (source_panicked i) r n h = h

-- What an event cancels is the last context, if the event is one that cancels.
pub act_cancels :
    (before : List Event) (e : Event) (r : Running) (n : ℕ)
    → Tidy before r
    → is_member n (act e r).cancelled ≡ true
    → (is_member n r.cancelled ≡ true) ⊎ ((starts before ≡ suc n) × IsCancelling before e)
unfolding act
act_cancels before start_called r n t h = inl h
act_cancels before (first_synced none) r n t h = inl h
act_cancels before (first_synced (some f)) r n t h =
    elim (is_member-cancel_context n r.current r.cancelled h) [
      | inl old ↦ inl old
      | inr now ↦ inr (last_context-suc n (starts before) (sym t.current_last ∙ now), inl (f, refl))
    ]
act_cancels before first_panicked r n t h = inl h
act_cancels before stop_called r n t h = elim (Bool-cases r.is_stopped) [
  | inl is ↦ inl (subst (λ r'. is_member n r'.cancelled ≡ true) (stop_once-again r is) h)
  | inr not_yet ↦
      elim (is_member-cancel_context n r.current r.cancelled
        (subst (λ r'. is_member n r'.cancelled ≡ true) (stop_once-first r not_yet) h)) [
          | inl old ↦ inl old
          | inr now ↦ inr (
            last_context-suc n (starts before) (sym t.current_last ∙ now),
            inr (refl, sym t.stopped_by ∙ not_yet),
          )
        ]
]
act_cancels before (done_seen i) r n t h = inl h
act_cancels before (source_panicked i) r n t h = inl h

-- And such an event cancels it.
pub cancelled_now :
    (before : List Event) (e : Event) (r : Running) (n : ℕ)
    → Tidy before r
    → starts before ≡ suc n
    → IsCancelling before e
    → is_member n (act e r).cancelled ≡ true
unfolding act
cancelled_now before e r n t s (inl (f, q)) =
    subst (λ e. is_member n (act e r).cancelled ≡ true) (sym q)
      (current_cancelled n r.current r.cancelled (t.current_last ∙ ap last_context s))
cancelled_now before e r n t s (inr (q, first)) =
    subst (λ e. is_member n (act e r).cancelled ≡ true) (sym q)
      (subst (λ r'. is_member n r'.cancelled ≡ true)
        (sym (stop_once-first r (t.stopped_by ∙ first)))
        (current_cancelled n r.current r.cancelled (t.current_last ∙ ap last_context s)))
