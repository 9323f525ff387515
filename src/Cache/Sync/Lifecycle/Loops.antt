-- ===== src/Cache/Sync/Lifecycle/Loops.antt =====
-- What each event does to the periodic goroutines of cache/syncable_cache.go.
use nexgo.Base.{
  ℕ, zero, suc, ◌+◌, ◌≡◌, refl, ap, sym, ◌∙◌, true, Option, none, some, List, [], ◌∷◌, ◌++◌, inl,
  inr, map, modify, All, All-append, append_assoc, append-nil, map-append, arith, Bool-cases, subst,
}
use nexgo.Cache.Sync.Lifecycle.{
  Phase, looping, left, crashed, Loop, Running, Event, start_called, first_synced, first_panicked,
  stop_called, done_seen, source_panicked, is_member, spawned, crash, leave, act,
}
use nexgo.Cache.Sync.Lifecycle.Contexts.{
  starts, last_context, to_list, begun, Tidy, act_keeps, stop_once-first, stop_once-again,
  cancelled_kept,
}

abbrev pub contexts_of : List Loop → List ℕ
contexts_of loops = map (λ l. l.context) loops

-- A goroutine that has left has a cancelled context.
abbrev pub Parted : List ℕ → Loop → Type 0
Parted cancelled l = l.phase ≡ left → is_member l.context cancelled ≡ true

pub begun-snoc :
    (n : ℕ) (es : List Event) (e : Event)
    → begun n (es ++ (e ∷ [])) ≡ begun n es ++ begun (n + starts es) (e ∷ [])
begun-snoc n [] e = ap (λ k. begun k (e ∷ [])) (omega arith)
begun-snoc n (start_called ∷ es) e =
    begun-snoc (suc n) es e ∙ ap (λ k. begun (suc n) es ++ begun k (e ∷ [])) (omega arith)
begun-snoc n (first_synced none ∷ es) e =
    ap (λ xs. to_list (last_context n) ++ xs) (begun-snoc n es e)
    ∙ sym (append_assoc (to_list (last_context n)) (begun n es) (begun (n + starts es) (e ∷ [])))
begun-snoc n (first_synced (some f) ∷ es) e = begun-snoc n es e
begun-snoc n (first_panicked ∷ es) e = begun-snoc n es e
begun-snoc n (stop_called ∷ es) e = begun-snoc n es e
begun-snoc n (done_seen i ∷ es) e = begun-snoc n es e
begun-snoc n (source_panicked i ∷ es) e = begun-snoc n es e

contexts_of-modify :
    (f : Loop → Loop) (i : ℕ) (ls : List Loop)
    → ((l : Loop) → (f l).context ≡ l.context)
    → contexts_of (modify f i ls) ≡ contexts_of ls
contexts_of-modify f i [] h = refl
contexts_of-modify f zero (l ∷ ls) h = ap (λ n. n ∷ contexts_of ls) (h l)
contexts_of-modify f (suc i) (l ∷ ls) h = ap (λ ns. l.context ∷ ns) (contexts_of-modify f i ls h)

All-modify :
    (P : Loop → Type 0) (f : Loop → Loop) (i : ℕ) (ls : List Loop)
    → ((l : Loop) → P l → P (f l))
    → All P ls
    → All P (modify f i ls)
All-modify P f i [] h a = tt
All-modify P f zero (l ∷ ls) h a = (h l a.0, a.1)
All-modify P f (suc i) (l ∷ ls) h a = (a.0, All-modify P f i ls h a.1)

pub Weaker : {P Q : Loop → Type 0} (ls : List Loop) → ((l : Loop) → P l → Q l) → All P ls → All Q ls
Weaker [] h a = tt
Weaker (l ∷ ls) h a = (h l a.0, Weaker ls h a.1)

leave_lem :
    (ns : List ℕ) (l : Loop)
    → ((leave ns l).context ≡ l.context) × (Parted ns l → Parted ns (leave ns l))
leave_lem ns l = by_phase l.context l.phase
  where
    by_phase :
        (n : ℕ) (p : Phase)
        → let l : Loop = record { context = n; phase = p } in
          ((leave ns l).context ≡ l.context) × (Parted ns l → Parted ns (leave ns l))
    by_phase n looping = elim (Bool-cases (is_member n ns)) [
      | inl is ↦ rw is (refl, λ h e. is)
      | inr not ↦ rw not (refl, λ h e. absurd (cc))
    ]
    by_phase n left = (refl, λ h. h)
    by_phase n crashed = (refl, λ h. h)

spawned-contexts : (o : Option ℕ) → contexts_of (spawned o) ≡ to_list o
spawned-contexts none = refl
spawned-contexts (some n) = refl

spawned-Parted : (ns : List ℕ) (o : Option ℕ) → All (Parted ns) (spawned o)
spawned-Parted ns none = tt
spawned-Parted ns (some n) = ((λ h. absurd (cc)), tt)

-- What one event does to the goroutines.
pub act-loops :
    (before : List Event) (e : Event) (r : Running)
    → Tidy before r
    → contexts_of (act e r).loops ≡ contexts_of r.loops ++ begun (starts before) (e ∷ [])
unfolding act
act-loops before start_called r t = sym (append-nil _)
act-loops before (first_synced none) r t =
    map-append _ r.loops (spawned r.current)
    ∙ ap (λ ns. contexts_of r.loops ++ ns)
        (spawned-contexts r.current
          ∙ ap to_list t.current_last
          ∙ sym (append-nil (to_list (last_context (starts before)))))
act-loops before (first_synced (some f)) r t = sym (append-nil _)
act-loops before first_panicked r t = sym (append-nil _)
act-loops before stop_called r t = elim (Bool-cases r.is_stopped) [
  | inl is ↦
      subst (λ r'. contexts_of r'.loops ≡ contexts_of r.loops ++ []) (sym (stop_once-again r is))
        (sym (append-nil _))
  | inr not_yet ↦
      subst (λ r'. contexts_of r'.loops ≡ contexts_of r.loops ++ [])
        (sym (stop_once-first r not_yet)) (sym (append-nil _))
]
act-loops before (done_seen i) r t =
    contexts_of-modify (leave r.cancelled) i r.loops (λ l. (leave_lem r.cancelled l).0)
    ∙ sym (append-nil _)
act-loops before (source_panicked i) r t =
    contexts_of-modify crash i r.loops (λ l. refl) ∙ sym (append-nil _)

pub act-Parted :
    (e : Event) (r : Running)
    → All (Parted r.cancelled) r.loops
    → All (Parted (act e r).cancelled) (act e r).loops
unfolding act
act-Parted start_called r a = a
act-Parted (first_synced none) r a =
    All-append (Parted r.cancelled) r.loops (spawned r.current) a
      (spawned-Parted r.cancelled r.current)
act-Parted (first_synced (some f)) r a =
    Weaker r.loops (λ l p h. act_keeps (first_synced (some f)) r l.context (p h)) a
act-Parted first_panicked r a = a
act-Parted stop_called r a = elim (Bool-cases r.is_stopped) [
  | inl is ↦ subst (λ r'. All (Parted r'.cancelled) r'.loops) (sym (stop_once-again r is)) a
  | inr not_yet ↦
      subst (λ r'. All (Parted r'.cancelled) r'.loops) (sym (stop_once-first r not_yet))
        (Weaker r.loops (λ l p h. cancelled_kept l.context r.current r.cancelled (p h)) a)
]
act-Parted (done_seen i) r a =
    All-modify (Parted r.cancelled) (leave r.cancelled) i r.loops (λ l. (leave_lem r.cancelled l).1)
      a
act-Parted (source_panicked i) r a =
    All-modify (Parted r.cancelled) crash i r.loops (λ l p h. absurd (cc)) a
