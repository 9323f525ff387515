-- ===== src/Ch/Writer/Store/Frame.antt =====
-- What the insertion of a batch in ch/writer.go leaves alone: whatever part of the world the calls
-- of the driver and of the converters leave alone.
use nexgo.Base.{
  ◌≡◌, refl, ◌∙◌, inl, inr, Option, none, some, List, [], ◌∷◌, Result, ok, err, Dict, lookup,
  nat_eq, list_eq, Bool-cases,
}
use nexgo.Ch.Error.{TableName, Foreign, Error, is_schema_related_error}
use nexgo.Ch.Env.{Conn, Codec}
use nexgo.Ch.Writer.Store.{
  Store, batch_insert, do_batch_insert, get_table_columns, cached_or_fetched, cache_fetched,
  fetch_table_columns, refresh_table_schema, refreshed, insert_rows, append_rows, row_values,
  insert_with, after_insert, retry_refreshed, and_then,
}

pub record Quiet {W Column Row Value A : Type 0} (conn : Conn W Row Value)
    (codec : Codec W Column Row Value) (view : W → A) : Type 0 where
  pub query_quiet : (t : TableName) (w : W) → view (conn.query_describe t w).1 ≡ view w
  pub prepare_quiet : (t : TableName) (w : W) → view (conn.prepare_batch t w).1 ≡ view w
  pub append_quiet :
      (t : TableName) (vs : List Value) (w : W) → view (conn.append t vs w).1 ≡ view w
  pub send_quiet : (t : TableName) (w : W) → view (conn.send t w).1 ≡ view w
  pub value_quiet :
      (r : Row) (col : Column) (w : W) → view (codec.get_column_value r col w).1 ≡ view w

module _ {W Column Row Value : Type 0} (conn : Conn W Row Value) (codec : Codec W Column Row Value)
    {A : Type 0} (view : W → A) (laws : Quiet conn codec view) where
  row_values_quiet :
      (cols : List Column) (r : Row) (w : W) → view (row_values conn codec cols r w).1 ≡ view w
  unfolding row_values
  row_values_quiet [] r w = refl
  row_values_quiet (col ∷ cols) r w = row_values_quiet cols r _ ∙ laws.value_quiet r col w

  and_then_quiet :
      (r : Option Foreign × W) (k : W → Option Foreign × W) (w : W)
      → view r.1 ≡ view w
      → ((w : W) → view (k w).1 ≡ view w)
      → view (and_then conn codec r k).1 ≡ view w
  and_then_quiet (none, w') k w h g = g w' ∙ h
  and_then_quiet (some f, w') k w h g = h

  append_rows_quiet :
      (t : TableName) (cols : List Column) (rows : List Row) (w : W)
      → view (append_rows conn codec t cols rows w).1 ≡ view w
  unfolding append_rows
  append_rows_quiet t cols [] w = refl
  append_rows_quiet t cols (r ∷ rows) w =
      and_then_quiet _ _ w (laws.append_quiet t _ _ ∙ row_values_quiet cols r w)
        (append_rows_quiet t cols rows)

  insert_rows_quiet :
      (t : TableName) (cols : List Column) (rows : List Row) (w : W)
      → view (insert_rows conn codec t cols rows w).1 ≡ view w
  unfolding insert_rows
  insert_rows_quiet t cols rows w =
      let fill = λ (w : W). append_rows conn codec t cols rows w in
      and_then_quiet (conn.prepare_batch t w) (λ w. and_then conn codec (fill w) (conn.send t)) w
        (laws.prepare_quiet t w)
        (λ w.
          and_then_quiet (fill w) (conn.send t) w (append_rows_quiet t cols rows w)
            (laws.send_quiet t))

  fetch_quiet : (t : TableName) (w : W) → view (fetch_table_columns conn codec t w).1 ≡ view w
  unfolding fetch_table_columns
  fetch_quiet t w = laws.query_quiet t w

  refreshed_quiet :
      (t : TableName) (m : Dict TableName (List Column)) (r : Result Error (List Column) × W)
      → view (refreshed conn codec t m r).1.world ≡ view r.1
  refreshed_quiet t m (err e, w) = refl
  refreshed_quiet t m (ok cols, w) = refl

  refresh_quiet :
      (t : TableName) (s : Store W Column)
      → view (refresh_table_schema conn codec t s).1.world ≡ view s.world
  unfolding refresh_table_schema
  refresh_quiet t s = refreshed_quiet t s.columns _ ∙ fetch_quiet t s.world

  cache_fetched_quiet :
      (t : TableName) (m : Dict TableName (List Column)) (r : Result Error (List Column) × W)
      → view (cache_fetched conn codec t m r).1.world ≡ view r.1
  cache_fetched_quiet t m (err e, w) = refl
  cache_fetched_quiet t m (ok cols, w) = refl

  cached_or_fetched_quiet :
      (t : TableName) (s : Store W Column) (c : Option (List Column))
      → view (cached_or_fetched conn codec t s c).1.world ≡ view s.world
  cached_or_fetched_quiet t s none = cache_fetched_quiet t s.columns _ ∙ fetch_quiet t s.world
  cached_or_fetched_quiet t s (some cols) = refl

  insert_with_quiet :
      (t : TableName) (rows : List Row) (r : Result Error (List Column) × Store W Column)
      → view (insert_with conn codec t rows r).1.world ≡ view r.1.world
  insert_with_quiet t rows (err e, s) = refl
  insert_with_quiet t rows (ok cols, s) = insert_rows_quiet t cols rows s.world

  do_batch_insert_quiet :
      (t : TableName) (rows : List Row) (s : Store W Column)
      → view (do_batch_insert conn codec t rows s).1.world ≡ view s.world
  unfolding do_batch_insert get_table_columns
  do_batch_insert_quiet t rows s =
      insert_with_quiet t rows _ ∙ cached_or_fetched_quiet t s (lookup t s.columns)

  retry_refreshed_quiet :
      (t : TableName) (rows : List Row) (e : Error) (r : Option Error × Store W Column)
      → view (retry_refreshed conn codec t rows e r).1.world ≡ view r.1.world
  retry_refreshed_quiet t rows e (none, s) = do_batch_insert_quiet t rows s
  retry_refreshed_quiet t rows e (some f, s) = refl

  after_insert_quiet :
      (t : TableName) (rows : List Row) (r : Option Error × Store W Column)
      → view (after_insert conn codec t rows r).1.world ≡ view r.1.world
  after_insert_quiet t rows (none, s) = refl
  after_insert_quiet t rows (some e, s) = elim (Bool-cases (is_schema_related_error e)) [
    | inl y ↦
        rw y
          (retry_refreshed_quiet t rows e (refresh_table_schema conn codec t s) ∙ refresh_quiet t s)
    | inr n ↦ rw n
  ]

  pub batch_insert_quiet :
      (t : TableName) (rows : List Row) (s : Store W Column)
      → view (batch_insert conn codec t rows s).1.world ≡ view s.world
  unfolding batch_insert
  batch_insert_quiet t [] s = refl
  batch_insert_quiet t (r ∷ rows) s =
      after_insert_quiet t (r ∷ rows) _ ∙ do_batch_insert_quiet t (r ∷ rows) s
