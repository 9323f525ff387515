-- ===== src/Kafka/Consumer/Closed.antt =====
-- NewConsumer and Close of kafka/consumer.go together: what is open when.
use nexgo.Base.{
  ℕ, zero, suc, ◌<◌, ◌≡◌, ◌⊎◌, inl, inr, refl, ap, sym, ℤ, pos, negsuc, Bool, true, false, Option,
  none, some, List, ◌++◌, length, append-nil, Result, ok, err, is_negative, arith, subst,
}
use nexgo.Kafka.Config.{ConsumerConfig, ConfigError, validate_consumer}
use nexgo.Kafka.Consumer.{
  ConsumerError, Client, Host, Instance, Consumer, make_instances, assembled, instances_for,
  in_cluster, validated, or_default, new_consumer, close_consumer,
}
use nexgo.Kafka.Consumer.Clients.{
  all_of, numbered, Made, make_instances-Made, close_instances-numbered,
}

module _ {W : Type 0} (client : Client W) where
  -- What Close of a consumer with `n` instances leaves, and a second Close.
  abbrev pub Closes : ℕ → List Bool → Consumer → Host W → Type 0
  Closes n before consumer h =
      let (e, again, h') = close_consumer client consumer h in
      (h'.are_open ≡ before ++ all_of n false)
      × (close_consumer client again h' ≡ (none, again, h'))

  abbrev pub Leaves :
      ConsumerConfig → List Bool → Option (Result ConsumerError Consumer × Host W) → Type 0
  Leaves c before none = is_negative c.instance_num ≡ true
  Leaves c before (some (err e, h)) =
      (k : ℕ) × (m : ℕ) × ((k ≡ 0) ⊎ ((n : ℕ) × (c.instance_num ≡ pos n) × (k < n)))
      × (m < 2)
      × (h.are_open ≡ before ++ (all_of k true ++ all_of m false))
  Leaves c before (some (ok consumer, h)) =
      (n : ℕ) × (c.instance_num ≡ pos n)
      × (consumer.instances ≡ numbered n 0 (length before) c)
      × (h.are_open ≡ before ++ all_of n true)
      × Closes n before consumer h

  close_all-Closes :
      (n : ℕ) (c : ConsumerConfig) (before : List Bool) (h : Host W)
      → h.are_open ≡ before ++ all_of n true
      → Closes n before (record { instances = numbered n 0 (length before) c; is_closed = false }) h
  unfolding close_consumer
  close_all-Closes zero c before h e = (e, refl)
  close_all-Closes (suc n) c before h e =
      (close_instances-numbered client (suc n) 0 c before h e, refl)

  made_lem :
      (n : ℕ) (c : ConsumerConfig) (before : List Bool)
      (x : Result ConsumerError (List Instance) × Host W)
      → c.instance_num ≡ pos n
      → Made client n 0 c before x
      → Leaves c before (some (assembled client x))
  made_lem n c before (err e, h) p m =
      let (k, j, fewer, one, opened) = m in (k, j, inr (n, p, fewer), one, opened)
  made_lem n c before (ok instances, h) p m = (
    n,
    p,
    m.0,
    m.1,
    subst (λ is. Closes n before (record { instances = is; is_closed = false }) h) (sym m.0)
        (close_all-Closes n c before h m.1),
  )

  counted :
      (z : ℤ) (c : ConsumerConfig) (h : Host W)
      → c.instance_num ≡ z
      → Leaves c h.are_open (instances_for client z c h)
  counted (negsuc n) c h p = ap is_negative p
  counted (pos n) c h p =
      made_lem n c h.are_open (make_instances client n 0 c h) p (make_instances-Made client n 0 c h)

  in_cluster-Leaves :
      (x : Bool × W) (c : ConsumerConfig) (h : Host W)
      → Leaves c h.are_open (in_cluster client x c h)
  in_cluster-Leaves (false, w) c h = (0, 0, inl refl, omega arith, sym (append-nil h.are_open))
  in_cluster-Leaves (true, w) c h = counted c.instance_num c (record h { world = w }) refl

  validated-Leaves :
      (o : Option ConfigError) (c : ConsumerConfig) (h : Host W)
      → Leaves c h.are_open (validated client o c h)
  validated-Leaves (some e) c h = (0, 0, inl refl, omega arith, sym (append-nil h.are_open))
  validated-Leaves none c h = in_cluster-Leaves (client.is_valid_cluster c.brokers h.world) c h

  -- NewConsumer panics only if InstanceNum is negative. If it succeeds, it has opened InstanceNum
  -- clients, one for each of its instances, which are named in order; Close then closes exactly those,
  -- and a second Close does nothing. If it fails, the clients of the instances made before the failing
  -- one stay open, and no instance is left that could close them.
  pub new_consumer-Leaves :
      (config : Option ConsumerConfig) (h : Host W)
      → Leaves (or_default config) h.are_open (new_consumer client config h)
  unfolding new_consumer
  new_consumer-Leaves config h =
      validated-Leaves (validate_consumer (or_default config)) (or_default config) h
