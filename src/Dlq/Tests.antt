-- ===== src/Dlq/Tests.antt =====
-- The recorder of dlq/recorder.go at concrete inputs, with a producer that refuses every other
-- message: the world counts them.
use nexgo.Base.{ℕ, ◌+◌, ◌%◌, ◌≡◌, refl, pos, Text, true, some, [], codes, nat_beq, arith}
use nexgo.Dlq.Recorder.{Env, Recorder, new_recorder, record_offer, loop_turn, close}
use nexgo.Dlq.Recorder.Conservation.{
  started, offered, turned, closed, Balanced, silently, delivers, reached-Balanced,
}

abbrev producer : Env ℕ Text
producer = record {
  marshal = λ p. some p;
  key = λ p. [];
  producer_produce = λ m w. (nat_beq (w % 2) 0, w + 1);
  producer_close = λ w. (true, w);
}

abbrev start : Recorder ℕ Text
start = new_recorder (codes "failed") 1 (pos 100) 0

-- One payload is sent, one finds the buffer full, one is produced, and the recorder is closed.
abbrev full : Recorder ℕ Text
full = record_offer true (codes "two") (record_offer true (codes "one") start)

abbrev at_end : Recorder ℕ Text
at_end = close producer (loop_turn producer full)

one_lost : at_end.dropped ≡ 1
unfolding new_recorder record_offer loop_turn close
one_lost = refl

reached-Balanced_example :
    Balanced producer 1 2
      (silently producer true
        (record_offer true (codes "one") start)
        (silently producer true start 0))
      (delivers producer full 0)
      at_end
reached-Balanced_example =
    reached-Balanced producer 1 (codes "failed") (pos 100) 0 2
      (silently producer true (record_offer true (codes "one") start)
        (silently producer true start 0))
      (delivers producer full 0) at_end
      (closed _ _ _ _ (
        turned _ _ _ _
          (offered _ _ _ _ true (codes "two") (offered _ _ _ _ true (codes "one") started))))
      (omega arith)
