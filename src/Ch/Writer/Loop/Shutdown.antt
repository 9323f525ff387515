-- ===== src/Ch/Writer/Loop/Shutdown.antt =====
-- The end of processLoop in ch/writer.go. Close closes the done channel and the data channel, one
-- after the other, and the select of the loop takes whichever it likes: the two ends differ.
use nexgo.Base.{
  ℕ, ◌+◌, ◌≡◌, refl, sym, ◌∙◌, ap, pos, Bool, true, false, some, List, [], ◌∷◌, ◌++◌, map, Dict,
  nat_eq, list_eq, lookup, leb_ℤ, ltb_ℤ, arith, length, append-nil,
}
use nexgo.Ch.Error.{TableName}
use nexgo.Ch.Writer.Config.{WriterConfig}
use nexgo.Ch.Writer.Loop.{
  Event, received, channel_closed, drained, Loop, State, empty_loop, turn, resume, process_loop,
  add_row, flush_if,
}
use nexgo.Ch.Writer.Loop.Counts.{empty_loop-Inv}
use nexgo.Ch.Writer.Loop.Order.{sent, pending, arrived, arrived_rows, IsOrderly, process_loop_order}

module _ {Row : Type 0} (table_name : Row → TableName) (c : WriterConfig) where
  abbrev pub receipts : ℕ → List Row → List (Event Row)
  receipts now [] = []
  receipts now (r ∷ rs) = received (some r) now ∷ receipts now rs

  close_after_receipts :
      (now : ℕ) (rs : List Row) (l : Loop Row)
      → ltb_ℤ (pos (l.total_rows + length rs)) c.flush_size ≡ true
      → (process_loop table_name c (receipts now rs ++ (channel_closed ∷ [])) l).1 ≡ []
  unfolding process_loop turn
  close_after_receipts now [] l h = refl
  close_after_receipts now (r ∷ rs) l h =
      rw room (close_after_receipts now rs (add_row table_name c r now l) (ground arith))
    where
      room : leb_ℤ c.flush_size (pos (l.total_rows + 1)) ≡ false
      room = ground arith

  receipts-IsOrderly : (now : ℕ) (rs : List Row) → IsOrderly (receipts now rs ++ (drained [] ∷ []))
  receipts-IsOrderly now [] = tt
  receipts-IsOrderly now (r ∷ rs) = receipts-IsOrderly now rs

  arrived-receipts :
      (t : TableName) (now : ℕ) (rs : List Row)
      → arrived table_name c t (receipts now rs ++ (drained [] ∷ []))
        ≡ arrived_rows table_name c t (map some rs)
  arrived-receipts t now [] = refl
  arrived-receipts t now (r ∷ rs) = ground (arith, arrived-receipts t now rs)

  -- After the shutdown nothing is pending.
  drained_stops :
      (t : TableName) (now : ℕ) (rs : List Row) (l : Loop Row)
      → pending t (process_loop table_name c (receipts now rs ++ (drained [] ∷ [])) l).0 ≡ []
  unfolding process_loop turn
  drained_stops t now [] l = refl
  drained_stops t now (r ∷ rs) l = either (drained_stops t now rs) _ (add_row table_name c r now l)
    where
      rest : Loop Row → State Row × List (Dict TableName (List Row))
      rest = process_loop table_name c (receipts now rs ++ (drained [] ∷ []))

      either :
          ((l : Loop Row) → pending t (rest l).0 ≡ [])
          → (b : Bool) (l' : Loop Row)
          → pending t (resume table_name c rest (flush_if table_name c b l')).0 ≡ []
      either ih true l' = ih _
      either ih false l' = ih l'

  -- For any rows, fewer than the flush size, that the loop has received since its start: if it then
  -- finds the data channel closed, it returns without having handed a single row to flush, whereas
  -- if it takes the done channel, it hands every one of them to flush, table by table in order.
  pub channel_closed_loses_rows :
      (now : ℕ) (rs : List Row)
      → ltb_ℤ (pos (length rs)) c.flush_size ≡ true
      → ((process_loop table_name c
            (receipts now rs ++ (channel_closed ∷ []))
            (empty_loop table_name c)).1
          ≡ [])
        × ((t : TableName)
            → sent t
                (process_loop table_name c
                  (receipts now rs ++ (drained [] ∷ []))
                  (empty_loop table_name c)).1
              ≡ arrived_rows table_name c t (map some rs))
  unfolding lookup
  channel_closed_loses_rows now rs h =
      (close_after_receipts now rs _ (ground arith), λ t. flushed_all t)
    where
      flushed_all :
          (t : TableName)
          → sent t
              (process_loop table_name c
                (receipts now rs ++ (drained [] ∷ []))
                (empty_loop table_name c)).1
            ≡ arrived_rows table_name c t (map some rs)
      flushed_all t =
          sym (append-nil _)
          ∙ ap
              (λ xs.
                sent t
                  (process_loop table_name c (receipts now rs ++ (drained [] ∷ []))
                    (empty_loop table_name c)).1
                ++ xs)
              (sym (drained_stops t now rs _))
          ∙ process_loop_order table_name c t _ (empty_loop table_name c)
              (empty_loop-Inv table_name c) (receipts-IsOrderly now rs)
          ∙ arrived-receipts t now rs
