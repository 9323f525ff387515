-- ===== src/Ch/Writer/Store/Mismatch.antt =====
-- batchInsert of ch/writer.go after a schema mismatch.
use nexgo.Base.{◌≡◌, ◌≢◌, refl, true, false, Option, none, some, List, ◌∷◌, ok}
use nexgo.Ch.Error.{TableName, Error, is_schema_related_error}
use nexgo.Ch.Env.{Conn, Codec}
use nexgo.Ch.Writer.Store.{
  Store, fetch_table_columns, refresh_table_schema, do_batch_insert, insert_with, batch_insert,
}
use nexgo.Ch.Writer.Store.Cache.{refresh_table_schema_lem}

module _ {W Column Row Value : Type 0} (conn : Conn W Row Value) (codec : Codec W Column Row Value)
    (t : TableName) (r : Row) (rows : List Row) (s s' s'' : Store W Column) (e : Error)
    (failed : do_batch_insert conn codec t (r ∷ rows) s ≡ (some e, s')) where
  -- When the first insertion of a batch fails with an error that is no schema mismatch, batchInsert
  -- returns it, with one insertion made.
  other_failure :
      is_schema_related_error e ≡ false → batch_insert conn codec t (r ∷ rows) s ≡ (some e, s')
  unfolding batch_insert
  other_failure n = rw (failed, n)

  -- When the first insertion of a batch fails: an error that is no schema mismatch is returned as
  -- it is. On a mismatch the schema is refreshed; if that fails, the first error is returned; and if
  -- it succeeds, the second insertion's result is returned, which works with the columns just
  -- fetched and does not ask the server for them again.
  pub batch_insert_mismatch :
      (f : Option Error)
      → refresh_table_schema conn codec t s' ≡ (f, s'')
      → (is_schema_related_error e ≡ false → batch_insert conn codec t (r ∷ rows) s ≡ (some e, s'))
        × (is_schema_related_error e ≡ true
            → f ≢ none
            → batch_insert conn codec t (r ∷ rows) s ≡ (some e, s''))
        × (is_schema_related_error e ≡ true
            → f ≡ none
            → (cols : List Column) × ((fetch_table_columns conn codec t s'.world).0 ≡ ok cols)
              × (batch_insert conn codec t (r ∷ rows) s
                  ≡ insert_with conn codec t (r ∷ rows) (ok cols, s'')))
  unfolding batch_insert
  batch_insert_mismatch none q = (
    other_failure,
    (λ y n. absurd (n refl)),
    λ y n.
        let (cols, fetched, cached) =
          (refresh_table_schema_lem conn codec t s' s'' none q).2 refl in
        (cols, fetched, rw (failed, y, q) (unfold do_batch_insert in rw cached)),
  )
  batch_insert_mismatch (some g) q = (other_failure, (λ y n. rw (failed, y, q)), λ y n. absurd (cc))
