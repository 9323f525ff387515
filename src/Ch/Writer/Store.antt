-- ===== src/Ch/Writer/Store.antt =====
-- The schema cache of ch/writer.go and the insertion of a batch: fetchTableColumns,
-- getTableColumns, RefreshTableSchema, refreshAllTableSchemas, doBatchInsert and batchInsert.
pub mod Cache
pub mod Rows
pub mod Frame
pub mod Mismatch
use nexgo.Base.{
  ℕ, suc, ◌+◌, Text, Bool, true, false, ◌||◌, Option, none, some, List, [], ◌∷◌, map, Dict, nat_eq,
  list_eq, lookup, insert, Result, ok, err, codes, text_eq, if◌then◌else◌,
}
use nexgo.Ch.Error.{TableName, Foreign, Error, foreign, describe, is_schema_related_error}
use nexgo.Ch.Error
use nexgo.Ch.Env.{Described, Conn, Codec}

-- tableColumns, and the world.
pub record Store (W Column : Type 0) : Type 0 where
  pub columns : Dict TableName (List Column)
  pub world : W

unfoldable pub is_insertable : Text → Bool
is_insertable d =
    if text_eq d (codes "MATERIALIZED")
      || text_eq d (codes "ALIAS")
      || text_eq d (codes "EPHEMERAL")
    then false
    else true

-- The failure of a call of the driver, as the error that the writer returns.
abbrev pub failure : Option Foreign → Option Error
failure none = none
failure (some f) = some (foreign f)

module _ {W Column Row Value : Type 0} (conn : Conn W Row Value)
    (codec : Codec W Column Row Value) where
  -- The loop over rows.Next. The iteration error rows.Err is not asked for.
  unfoldable pub scan_columns : List (Result Foreign Described) → Result Error (List Column)
  unfolding is_insertable
  scan_columns [] = ok []
  scan_columns (err f ∷ rows) = err (foreign f)
  scan_columns (ok d ∷ rows) =
      let rest = scan_columns rows in
      elim (is_insertable d.default_type) [
        | false ↦ rest
        | true ↦ elim rest [
          | err e ↦ err e
          | ok cols ↦ ok (codec.parse_column_type d.name d.type_str d.default_expr ∷ cols)
        ]
      ]

  unfoldable pub fetch_table_columns : TableName → W → Result Error (List Column) × W
  unfolding scan_columns
  fetch_table_columns t w =
      let (answer, w') = conn.query_describe t w in
      (elim answer [ err f ↦ err (describe t (foreign f)) | ok rows ↦ scan_columns rows ], w')

  abbrev pub cache_fetched :
      TableName
      → Dict TableName (List Column)
      → Result Error (List Column) × W
      → Result Error (List Column) × Store W Column
  cache_fetched t m (err e, w) = (err e, record { columns = m; world = w })
  cache_fetched t m (ok cols, w) = (ok cols, record { columns = insert t cols m; world = w })

  abbrev pub cached_or_fetched :
      TableName
      → Store W Column
      → Option (List Column)
      → Result Error (List Column) × Store W Column
  cached_or_fetched t s (some cols) = (ok cols, s)
  cached_or_fetched t s none = cache_fetched t s.columns (fetch_table_columns t s.world)

  unfoldable pub get_table_columns :
      TableName → Store W Column → Result Error (List Column) × Store W Column
  get_table_columns t s = cached_or_fetched t s (lookup t s.columns)

  abbrev pub refreshed :
      TableName
      → Dict TableName (List Column)
      → Result Error (List Column) × W
      → Option Error × Store W Column
  refreshed t m (err e, w) = (some e, record { columns = m; world = w })
  refreshed t m (ok cols, w) = (none, record { columns = insert t cols m; world = w })

  unfoldable pub refresh_table_schema : TableName → Store W Column → Option Error × Store W Column
  refresh_table_schema t s = refreshed t s.columns (fetch_table_columns t s.world)

  -- The loop of refreshAllTableSchemas: how many succeeded.
  unfoldable pub refresh_tables : List TableName → Store W Column → ℕ × Store W Column
  refresh_tables [] s = (0, s)
  refresh_tables (t ∷ ts) s =
      let (e, s') = refresh_table_schema t s in
      let (n, s'') = refresh_tables ts s' in (elim e [ none ↦ suc n | some _ ↦ n ], s'')

  unfoldable pub refresh_all_table_schemas : Store W Column → ℕ × Store W Column
  unfolding refresh_tables
  refresh_all_table_schemas s = refresh_tables (map (λ e. e.0) s.columns) s

  -- `values[i] = w.getColumnValue(valueMap, &columns[i])` for each column
  unfoldable pub row_values : List Column → Row → W → List Value × W
  row_values [] r w = ([], w)
  row_values (col ∷ cols) r w =
      let (v, w') = codec.get_column_value r col w in
      let (vs, w'') = row_values cols r w' in (v ∷ vs, w'')

  -- A failed call of the driver ends the insertion.
  abbrev pub and_then : Option Foreign × W → (W → Option Foreign × W) → Option Foreign × W
  and_then (none, w) k = k w
  and_then (some f, w) k = (some f, w)

  -- The loop over the rows: the first failure of batch.Append ends it.
  unfoldable pub append_rows : TableName → List Column → List Row → W → Option Foreign × W
  unfolding row_values
  append_rows t cols [] w = (none, w)
  append_rows t cols (r ∷ rs) w =
      let (vs, w') = row_values cols r w in and_then (conn.append t vs w') (append_rows t cols rs)

  -- PrepareBatch, the rows, Send
  unfoldable pub insert_rows : TableName → List Column → List Row → W → Option Foreign × W
  unfolding append_rows
  insert_rows t cols rows w =
      and_then (conn.prepare_batch t w) (λ w. and_then (append_rows t cols rows w) (conn.send t))

  abbrev pub insert_failure : TableName → Option Foreign → Option Error
  insert_failure t none = none
  insert_failure t (some f) = some (Error.insert t (foreign f))

  abbrev pub insert_with :
      TableName
      → List Row
      → Result Error (List Column) × Store W Column
      → Option Error × Store W Column
  insert_with t rows (err e, s) = (some (Error.insert t e), s)
  insert_with t rows (ok cols, s) =
      let (f, w') = insert_rows t cols rows s.world in (insert_failure t f, record s { world = w' })

  unfoldable pub do_batch_insert :
      TableName → List Row → Store W Column → Option Error × Store W Column
  unfolding insert_rows
  do_batch_insert t rows s = insert_with t rows (get_table_columns t s)

  abbrev pub retry_refreshed :
      TableName → List Row → Error → Option Error × Store W Column → Option Error × Store W Column
  retry_refreshed t rows e (some refresh_err, s) = (some e, s)
  retry_refreshed t rows e (none, s) = do_batch_insert t rows s

  abbrev pub after_insert :
      TableName → List Row → Option Error × Store W Column → Option Error × Store W Column
  after_insert t rows (none, s) = (none, s)
  after_insert t rows (some e, s) =
      if is_schema_related_error e
      then retry_refreshed t rows e (refresh_table_schema t s)
      else (some e, s)

  unfoldable pub batch_insert :
      TableName → List Row → Store W Column → Option Error × Store W Column
  batch_insert t [] s = (none, s)
  batch_insert t (r ∷ rs) s = after_insert t (r ∷ rs) (do_batch_insert t (r ∷ rs) s)
