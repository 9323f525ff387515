-- ===== src/Kafka/Consumer/Clients.antt =====
-- Which clients NewConsumer and Close of kafka/consumer.go leave open.
use nexgo.Base.{
  ℕ, zero, suc, ◌<◌, ◌≡◌, refl, ap, sym, ◌∙◌, Text, Bool, true, false, List, [], ◌∷◌, ◌++◌, length,
  length-append, modify, append_assoc, append-nil, Result, ok, err, arith, subst,
}
use nexgo.Kafka.Config.{ConsumerConfig}
use nexgo.Kafka.Consumer.{
  ConsumerError, Client, Host, Instance, closed, instance_name, close_one, subscribed, connected,
  new_consume_instance, before_others, then_make, make_instances, close_instances,
}

-- So many clients, all open or all closed.
abbrev pub all_of : ℕ → Bool → List Bool
all_of zero b = []
all_of (suc n) b = b ∷ all_of n b

-- The instances with their names from `i` on, whose clients are numbered from `k` on.
abbrev pub numbered : ℕ → ℕ → ℕ → ConsumerConfig → List Instance
numbered zero i k c = []
numbered (suc n) i k c =
    record { name = instance_name c i; client = k; is_closed = false }
    ∷ numbered n (suc i) (suc k) c

modify-last :
    (xs ys : List Bool) (b : Bool) → modify closed (length xs) (xs ++ (b ∷ ys)) ≡ xs ++ (false ∷ ys)
modify-last [] ys b = refl
modify-last (x ∷ xs) ys b = rw (modify-last xs ys b) refl

length-one : (xs : List Bool) (b : Bool) → length (xs ++ (b ∷ [])) ≡ suc (length xs)
length-one xs b = omega (arith, length-append xs (b ∷ []))

module _ {W : Type 0} (client : Client W) where
  -- What the loop that makes `n` instances comes to: all of them, with open clients; or an error, the
  -- clients of the `k` instances made before it open, and that of the failing one, if any, closed.
  abbrev pub Made :
      ℕ → ℕ → ConsumerConfig → List Bool → Result ConsumerError (List Instance) × Host W → Type 0
  Made n i c before (ok instances, h) =
      (instances ≡ numbered n i (length before) c) × (h.are_open ≡ before ++ all_of n true)
  Made n i c before (err e, h) =
      (k : ℕ) × (m : ℕ) × (k < n)
      × (m < 2)
      × (h.are_open ≡ before ++ (all_of k true ++ all_of m false))

  -- One instance.
  abbrev One : Text → List Bool → Result ConsumerError Instance × Host W → Type 0
  One name before (ok made, h) =
      (made ≡ record { name = name; client = length before; is_closed = false })
      × (h.are_open ≡ before ++ (true ∷ []))
  One name before (err e, h) = (m : ℕ) × (m < 2) × (h.are_open ≡ before ++ all_of m false)

  subscribed-One :
      (name : Text) (topics : List Text) (before : List Bool) (x : Bool × W) (w : W)
      → One name before (
          subscribed client name topics
            (length before)
            x
            (record { world = w; are_open = before ++ (true ∷ []) }))
  unfolding close_one
  subscribed-One name topics before (true, w) v = (refl, refl)
  subscribed-One name topics before (false, w) v = (1, omega arith, modify-last before [] true)

  connected-One :
      (name : Text) (topics : List Text) (h : Host W) (x : Bool × W)
      → One name h.are_open (connected client name topics x h)
  connected-One name topics h (false, w) = (0, omega arith, sym (append-nil h.are_open))
  connected-One name topics h (true, w) =
      subscribed-One name topics h.are_open (client.subscribe_topics (length h.are_open) topics w) w

  before_others-Made :
      (n i : ℕ) (c : ConsumerConfig) (before : List Bool) (made : Instance)
      (x : Result ConsumerError (List Instance) × Host W)
      → made ≡ record { name = instance_name c i; client = length before; is_closed = false }
      → Made n (suc i) c (before ++ (true ∷ [])) x
      → Made (suc n) i c before (before_others client made x)
  before_others-Made n i c before made (ok others, h) e m = (
    ap (λ o. made ∷ o) (m.0 ∙ ap (λ k. numbered n (suc i) k c) (length-one before true))
        ∙ ap (λ x. x ∷ numbered n (suc i) (suc (length before)) c) e,
    m.1 ∙ append_assoc before (true ∷ []) (all_of n true),
  )
  before_others-Made n i c before made (err x, h) e m =
      let (k, j, fewer, one, opened) = m in
      (
        suc k,
        j,
        omega (arith, fewer),
        one,
        opened ∙ append_assoc before (true ∷ []) (all_of k true ++ all_of j false),
      )

  then_make-Made :
      (n i : ℕ) (c : ConsumerConfig) (before : List Bool)
      (rest : Host W → Result ConsumerError (List Instance) × Host W)
      (x : Result ConsumerError Instance × Host W)
      → ((h : Host W) → Made n (suc i) c h.are_open (rest h))
      → One (instance_name c i) before x
      → Made (suc n) i c before (then_make client rest x)
  then_make-Made n i c before rest (ok made, h) later one =
      before_others-Made n i c before made (rest h) one.0
        (subst (λ o. Made n (suc i) c o (rest h)) one.1 (later h))
  then_make-Made n i c before rest (err e, h) later one =
      let (m, few, opened) = one in (0, m, omega arith, few, opened)

  pub make_instances-Made :
      (n i : ℕ) (c : ConsumerConfig) (h : Host W)
      → Made n i c h.are_open (make_instances client n i c h)
  unfolding make_instances new_consume_instance
  make_instances-Made zero i c h = (refl, sym (append-nil h.are_open))
  make_instances-Made (suc n) i c h =
      then_make-Made n i c h.are_open (make_instances client n (suc i) c)
        (new_consume_instance client (instance_name c i) c h)
        (λ h'. make_instances-Made n (suc i) c h')
        (connected-One (instance_name c i) c.topics h (client.new_client c h.world))

  pub close_instances-numbered :
      (n i : ℕ) (c : ConsumerConfig) (before : List Bool) (h : Host W)
      → h.are_open ≡ before ++ all_of n true
      → (close_instances client (numbered n i (length before) c) h).1.are_open
        ≡ before ++ all_of n false
  unfolding close_one
  close_instances-numbered zero i c before h e = e
  close_instances-numbered (suc n) i c before h e =
      let next = before ++ (false ∷ []) in
      let shut = close_one client (length before) h in
      let opened : shut.are_open ≡ next ++ all_of n true =
        ap (modify closed (length before)) e
        ∙ modify-last before (all_of n true) true
        ∙ sym (append_assoc before (false ∷ []) (all_of n true)) in
      ap (λ k. (close_instances client (numbered n (suc i) k c) shut).1.are_open)
        (sym (length-one before false))
      ∙ close_instances-numbered n (suc i) c next shut opened
      ∙ append_assoc before (false ∷ []) (all_of n false)
