-- ===== src/Dlq/Recorder/Conservation.antt =====
-- What becomes of every payload handed to Record, in any interleaving of its callers, the goroutine
-- and Close.
use nexgo.Base.{
  ℕ, suc, ◌+◌, ◌≤◌, ◌<◌, ◌^◌, ◌≡◌, refl, ap, ℤ, Text, Bool, true, false, Option, none, some, List,
  [], ◌∷◌, length, length-append, ltb→lt, ltb, arith, if◌then◌else◌,
}
use nexgo.Dlq.Recorder.{
  Env, Recorder, offer, record_offer, produced, produce_data, too_large, produce, wait_or_take,
  loop_turn, close, new_recorder, send, drop_one, add_one,
}

module _ {W Payload : Type 0} (env : Env W Payload) where
  -- Whether an offer ends without a trace: done is closed, and the select sees it.
  -- It is then added to `s`.
  abbrev pub lost : Bool → Bool → Bool → ℕ → ℕ
  lost true true prefer_done s = if prefer_done then suc s else s
  lost true false prefer_done s = s
  lost false true prefer_done s = suc s
  lost false false prefer_done s = s

  unfoldable pub silently : Bool → Recorder W Payload → ℕ → ℕ
  silently prefer_done r s = lost (ltb (length r.ch) r.capacity) r.done prefer_done s

  abbrev pub accepted : Bool → Option Text → Recorder W Payload → ℕ → ℕ
  accepted ok none r d = d
  accepted ok (some bytes) r d =
      if too_large env r.max_bytes bytes then d else if ok then suc d else d

  abbrev message_of : Option Text → Payload → Recorder W Payload → Bool
  message_of none p r = false
  message_of (some bytes) p r =
      (env.producer_produce (record { value = bytes; key = env.key p; topic = r.topic }) r.world).0

  abbrev next_accepted : List Payload → Recorder W Payload → ℕ → ℕ
  next_accepted [] r d = d
  next_accepted (p ∷ ps) r d =
      let taken = record r { ch = ps } in
      accepted (message_of (env.marshal p) p taken) (env.marshal p) taken d

  -- One more than `d` if the producer accepts the payload that a turn of the goroutine takes.
  unfoldable pub delivers : Recorder W Payload → ℕ → ℕ
  delivers r d = if r.running then next_accepted r.ch r d else d

  -- `Reach n s d r`: from the start, `n` calls of Record, of which `s` returned on seeing done closed,
  -- and turns of the goroutine, of which `d` had a payload accepted by the producer, lead to `r`. A
  -- call that passed its first select may offer after Close.
  pub data Reach (topic : Text) (capacity : ℕ) (most : ℤ) (w : W)
      : ℕ → ℕ → ℕ → Recorder W Payload → Type 0 where
    started : Reach topic capacity most w 0 0 0 (new_recorder topic capacity most w)
    refused :
        (n s d : ℕ) (r : Recorder W Payload)
        → r.done ≡ true
        → Reach topic capacity most w n s d r
        → Reach topic capacity most w (suc n) (suc s) d r
    offered :
        (n s d : ℕ) (r : Recorder W Payload) (prefer_done : Bool) (p : Payload)
        → Reach topic capacity most w n s d r
        → Reach topic capacity most w
            (suc n)
            (silently prefer_done r s)
            d
            (record_offer prefer_done p r)
    turned :
        (n s d : ℕ) (r : Recorder W Payload)
        → Reach topic capacity most w n s d r
        → Reach topic capacity most w n s (delivers r d) (loop_turn env r)
    closed :
        (n s d : ℕ) (r : Recorder W Payload)
        → Reach topic capacity most w n s d r
        → Reach topic capacity most w n s d (close env r)

  -- The payloads accounted for are those handed over, and the buffer keeps to its capacity.
  pub record Balanced (capacity n s d : ℕ) (r : Recorder W Payload) : Type 0 where
    pub total : n ≡ length r.ch + r.dropped + r.produce_errors + s + d
    pub same_capacity : r.capacity ≡ capacity
    pub bounded : length r.ch ≤ capacity

  add_one-eq : (n m : ℕ) → m ≤ n → suc n < 2 ^ 64 → add_one m ≡ suc m
  add_one-eq n m h k = native.Mathlib.Nat.mod-eq_of_lt (below m n h k)
    where
      below : (m n : ℕ) → m ≤ n → suc n < 2 ^ 64 → suc m < 2 ^ 64
      below m n h k = omega arith

  module _ (capacity : ℕ) where
    -- A call that leaves no trace, one whose payload is put into the buffer, and one that is counted.
    silent-Balanced :
        (n s d : ℕ) (r : Recorder W Payload)
        → Balanced capacity n s d r
        → Balanced capacity (suc n) (suc s) d r
    silent-Balanced n s d r h = record {
      total = omega (arith, h.total);
      same_capacity = h.same_capacity;
      bounded = h.bounded;
    }

    send-Balanced :
        (n s d : ℕ) (p : Payload) (r : Recorder W Payload)
        → ltb (length r.ch) r.capacity ≡ true
        → Balanced capacity n s d r
        → Balanced capacity (suc n) s d (send p r)
    send-Balanced n s d p r room h = record {
      total = omega (arith, h.total, length-append r.ch (p ∷ []));
      same_capacity = h.same_capacity;
      bounded = omega (
        arith,
        h.same_capacity,
        length-append r.ch (p ∷ []),
        ltb→lt (length r.ch) r.capacity room,
      );
    }

    drop-Balanced :
        (n s d : ℕ) (r : Recorder W Payload)
        → suc n < 2 ^ 64
        → Balanced capacity n s d r
        → Balanced capacity (suc n) s d (drop_one r)
    drop-Balanced n s d r few h = record {
      total = omega (arith, h.total, add_one-eq n r.dropped (omega (arith, h.total)) few);
      same_capacity = h.same_capacity;
      bounded = h.bounded;
    }

    offer-Balanced :
        (room done prefer_done : Bool) (n s d : ℕ) (p : Payload) (r : Recorder W Payload)
        → ltb (length r.ch) r.capacity ≡ room
        → suc n < 2 ^ 64
        → Balanced capacity n s d r
        → Balanced capacity
            (suc n)
            (lost room done prefer_done s)
            d
            (offer room done prefer_done p r)
    offer-Balanced true true true n s d p r e few h = silent-Balanced n s d r h
    offer-Balanced true true false n s d p r e few h = send-Balanced n s d p r e h
    offer-Balanced true false b n s d p r e few h = send-Balanced n s d p r e h
    offer-Balanced false true b n s d p r e few h = silent-Balanced n s d r h
    offer-Balanced false false b n s d p r e few h = drop-Balanced n s d r few h

    -- The recorder with the first payload taken out of the buffer: what is left to account for.
    record Taken (n s d : ℕ) (r : Recorder W Payload) : Type 0 where
      total : n ≡ suc (length r.ch + r.dropped + r.produce_errors + s + d)
      same_capacity : r.capacity ≡ capacity
      bounded : length r.ch ≤ capacity

    drop-Taken :
        (n s d : ℕ) (r : Recorder W Payload)
        → n < 2 ^ 64
        → Taken n s d r
        → Balanced capacity n s d (drop_one r)
    drop-Taken n s d r few h = record {
      total = omega (
        arith,
        h.total,
        add_one-eq (length r.ch + r.dropped + r.produce_errors + s + d) r.dropped (omega arith)
            (omega (arith, h.total)),
      );
      same_capacity = h.same_capacity;
      bounded = h.bounded;
    }

    failed-Taken :
        (n s d : ℕ) (w : W) (r : Recorder W Payload)
        → n < 2 ^ 64
        → Taken n s d r
        → Balanced capacity n s d
            (record r { produce_errors = add_one r.produce_errors; world = w })
    failed-Taken n s d w r few h = record {
      total = omega (
        arith,
        h.total,
        add_one-eq (length r.ch + r.dropped + r.produce_errors + s + d) r.produce_errors
            (omega arith) (omega (arith, h.total)),
      );
      same_capacity = h.same_capacity;
      bounded = h.bounded;
    }

    produced-Balanced :
        (n s d : ℕ) (q : Bool × W) (r : Recorder W Payload)
        → n < 2 ^ 64
        → Taken n s d r
        → Balanced capacity n s (if q.0 then suc d else d) (produced env q r)
    produced-Balanced n s d (true, w) r few h = record {
      total = omega (arith, h.total);
      same_capacity = h.same_capacity;
      bounded = h.bounded;
    }
    produced-Balanced n s d (false, w) r few h = failed-Taken n s d w r few h

    produce_data-Balanced :
        (n s d : ℕ) (b : Option Text) (p : Payload) (r : Recorder W Payload)
        → n < 2 ^ 64
        → Taken n s d r
        → Balanced capacity n s (accepted (message_of b p r) b r d) (produce_data env b p r)
    produce_data-Balanced n s d none p r few h = failed-Taken n s d r.world r few h
    produce_data-Balanced n s d (some bytes) p r few h = by_size (too_large env r.max_bytes bytes)
      where
        by_size :
            (large : Bool)
            → let q =
                env.producer_produce
                  (record { value = bytes; key = env.key p; topic = r.topic })
                  r.world in
              Balanced capacity n s
                (if large then d else if q.0 then suc d else d)
                (if large then drop_one r else produced env q r)
        by_size true = drop-Taken n s d r few h
        by_size false = produced-Balanced n s d _ r few h

    turn-Balanced :
        (n s d : ℕ) (r : Recorder W Payload)
        → n < 2 ^ 64
        → Balanced capacity n s d r
        → Balanced capacity n s (delivers r d) (loop_turn env r)
    unfolding delivers loop_turn produce
    turn-Balanced n s d r few h = by_running r.running
      where
        by_buffer :
            (q : List Payload)
            → r.ch ≡ q
            → Balanced capacity n s (next_accepted q r d) (wait_or_take env r.done q r)
        by_buffer [] e = idle r.done
          where
            idle :
                (b : Bool) → Balanced capacity n s d (if b then record r { running = false } else r)
            idle true = record {
              total = h.total;
              same_capacity = h.same_capacity;
              bounded = h.bounded;
            }
            idle false = h
        by_buffer (p ∷ ps) e =
            produce_data-Balanced n s d (env.marshal p) p (record r { ch = ps }) few
              record {
                total = omega (arith, h.total, ap length e);
                same_capacity = h.same_capacity;
                bounded = omega (arith, h.bounded, ap length e);
              }

        by_running :
            (b : Bool)
            → Balanced capacity n s
                (if b then next_accepted r.ch r d else d)
                (if b then wait_or_take env r.done r.ch r else r)
        by_running true = by_buffer r.ch refl
        by_running false = h

    -- However the callers of Record, the goroutine and Close interleave: while fewer than 2^64
    -- payloads have been handed over, each of them is in the buffer, was accepted by the producer, is
    -- counted as dropped or as a produce error, or was refused because the recorder is closing; and
    -- the buffer holds at most its capacity.
    pub reached-Balanced :
        (topic : Text) (most : ℤ) (w : W) (n s d : ℕ) (r : Recorder W Payload)
        → Reach topic capacity most w n s d r
        → n < 2 ^ 64
        → Balanced capacity n s d r
    unfolding new_recorder silently record_offer close
    reached-Balanced topic most w _ _ _ _ started few = record {
      total = omega arith;
      same_capacity = refl;
      bounded = omega arith;
    }
    reached-Balanced topic most w _ _ _ _ (refused n s d r e h) few =
        silent-Balanced n s d r (reached-Balanced topic most w n s d r h (omega arith))
    reached-Balanced topic most w _ _ _ _ (offered n s d r b p h) few =
        offer-Balanced _ r.done b n s d p r refl few
          (reached-Balanced topic most w n s d r h (omega arith))
    reached-Balanced topic most w _ _ _ _ (turned n s d r h) few =
        turn-Balanced n s d r few (reached-Balanced topic most w n s d r h few)
    reached-Balanced topic most w _ _ _ _ (closed n s d r h) few =
        let b = reached-Balanced topic most w n s d r h few in
        record { total = b.total; same_capacity = b.same_capacity; bounded = b.bounded }
