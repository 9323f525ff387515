-- ===== src/Ch/Writer/Store/Rows.antt =====
-- What one insertion of a batch in ch/writer.go sends: doBatchInsert from PrepareBatch on.
use nexgo.Base.{
  ℕ, suc, ◌≡◌, refl, ap, ◌∙◌, Option, none, some, List, [], ◌∷◌, ◌++◌, length, append_assoc,
}
use nexgo.Ch.Error.{TableName, Foreign}
use nexgo.Ch.Env.{Conn, Codec}
use nexgo.Ch.Writer.Store.{row_values, append_rows, and_then, insert_rows}

-- A call of batch.Append with the values of a row, and one of batch.Send, each with the error that it
-- returned.
pub data Sent (Value : Type 0) : Type 0 where
  appended : List Value → Option Foreign → Sent Value
  sent : Option Foreign → Sent Value

-- `log` is a part of the world that records these two calls.
pub record Wire {W Column Row Value : Type 0} (conn : Conn W Row Value)
    (codec : Codec W Column Row Value) (log : W → List (Sent Value)) : Type 0 where
  pub prepare_quiet : (t : TableName) (w : W) → log (conn.prepare_batch t w).1 ≡ log w
  pub value_quiet :
      (r : Row) (col : Column) (w : W) → log (codec.get_column_value r col w).1 ≡ log w
  pub append_logs :
      (t : TableName) (vs : List Value) (w : W)
      → log (conn.append t vs w).1 ≡ log w ++ (appended vs (conn.append t vs w).0 ∷ [])
  pub send_logs :
      (t : TableName) (w : W) → log (conn.send t w).1 ≡ log w ++ (sent (conn.send t w).0 ∷ [])

-- The calls for a batch of so many rows of so many columns, and what they come to: each row is
-- appended in full until an Append fails, whose error is the outcome; when all rows are appended, the
-- outcome is that of the one Send.
pub data Batch {Value : Type 0} (columns : ℕ)
    : ℕ → List (Sent Value) → Option Foreign → Type 0 where
  sending : (f : Option Foreign) → Batch columns 0 (sent f ∷ []) f
  failing :
      (n : ℕ) (vs : List Value) (f : Foreign)
      → length vs ≡ columns
      → Batch columns (suc n) (appended vs (some f) ∷ []) (some f)
  filling :
      (n : ℕ) (vs : List Value) (rest : List (Sent Value)) (f : Option Foreign)
      → length vs ≡ columns
      → Batch columns n rest f
      → Batch columns (suc n) (appended vs none ∷ rest) f

module _ {W Column Row Value : Type 0} (conn : Conn W Row Value) (codec : Codec W Column Row Value)
    (log : W → List (Sent Value)) (laws : Wire conn codec log) (t : TableName)
    (cols : List Column) where
  row_values_lem :
      (cs : List Column) (r : Row) (w : W)
      → (length (row_values conn codec cs r w).0 ≡ length cs)
        × (log (row_values conn codec cs r w).1 ≡ log w)
  unfolding row_values
  row_values_lem [] r w = (refl, refl)
  row_values_lem (col ∷ cs) r w =
      let rest = row_values_lem cs r (codec.get_column_value r col w).1 in
      (ap suc rest.0, rest.1 ∙ laws.value_quiet r col w)

  -- From the world `w`, the calls of a batch of these rows.
  abbrev pub Filled : List Row → W → Option Foreign × W → Type 0
  Filled rows w r =
      (calls : List (Sent Value)) × (log r.1 ≡ log w ++ calls)
      × Batch (length cols) (length rows) calls r.0

  append_one :
      (r : Row) (rows : List Row) (w : W) (vs : List Value) (q : Option Foreign × W)
      → length vs ≡ length cols
      → log q.1 ≡ log w ++ (appended vs q.0 ∷ [])
      → ((w' : W)
          → Filled rows w'
              (and_then conn codec (append_rows conn codec t cols rows w') (conn.send t)))
      → Filled (r ∷ rows) w (
          and_then conn codec
            (and_then conn codec q (append_rows conn codec t cols rows))
            (conn.send t))
  append_one r rows w vs (some f, w') n l ih =
      (appended vs (some f) ∷ [], l, failing (length rows) vs f n)
  append_one r rows w vs (none, w') n l ih =
      let (calls, logged, batch) = ih w' in
      (
        appended vs none ∷ calls,
        logged ∙ ap (λ c. c ++ calls) l ∙ append_assoc (log w) _ _,
        filling (length rows) vs calls _ n batch,
      )

  append_rows-Filled :
      (rows : List Row) (w : W)
      → Filled rows w (and_then conn codec (append_rows conn codec t cols rows w) (conn.send t))
  unfolding append_rows
  append_rows-Filled [] w = (sent _ ∷ [], laws.send_logs t w, sending _)
  append_rows-Filled (r ∷ rows) w =
      let (vs, w') = row_values conn codec cols r w in
      let (n, l) = row_values_lem cols r w in
      append_one r rows w vs (conn.append t vs w') n
        (laws.append_logs t vs w' ∙ ap (λ c. c ++ (appended vs (conn.append t vs w').0 ∷ [])) l)
        (append_rows-Filled rows)

  -- Nothing is called if the batch could not be prepared, and its calls are made otherwise.
  unfoldable pub Delivered : List Row → W → Option Foreign × W → Type 0
  Delivered rows w r =
      ((f : Foreign) → (conn.prepare_batch t w).0 ≡ some f → (r.0 ≡ some f) × (log r.1 ≡ log w))
      × ((conn.prepare_batch t w).0 ≡ none → Filled rows w r)

  prepared :
      (rows : List Row) (w : W) (q : Option Foreign × W)
      → log q.1 ≡ log w
      → let r =
          and_then conn codec q
            (λ w. and_then conn codec (append_rows conn codec t cols rows w) (conn.send t)) in
        ((f : Foreign) → q.0 ≡ some f → (r.0 ≡ some f) × (log r.1 ≡ log w))
        × (q.0 ≡ none → Filled rows w r)
  prepared rows w (some e, w') l = ((λ f h. (h, l)), λ h. absurd (cc))
  prepared rows w (none, w') l =
      let (calls, logged, batch) = append_rows-Filled rows w' in
      ((λ f h. absurd (cc)), λ h. (calls, logged ∙ ap (λ c. c ++ calls) l, batch))

  -- If the batch cannot be prepared, an insertion calls nothing else and returns that error.
  -- Otherwise it appends the rows, each with one value for every column of the schema, until an
  -- Append fails, whose error it returns without sending; when all rows are appended it sends the
  -- batch once and returns what Send returned. So it reports no error exactly if every row was
  -- appended and the batch was sent, all without an error.
  pub insert_rows-Delivered :
      (rows : List Row) (w : W) → Delivered rows w (insert_rows conn codec t cols rows w)
  unfolding insert_rows Delivered
  insert_rows-Delivered rows w = prepared rows w (conn.prepare_batch t w) (laws.prepare_quiet t w)
