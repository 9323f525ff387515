-- ===== src/Ch/Writer/Tests/Inserts.antt =====
-- The schema cache and the insertions of ch/writer.go on the server of test data.
use nexgo.Base.{
  ℕ, suc, ◌+◌, ◌*◌, ◌^◌, ◌<◌, ◌≤◌, ◌≡◌, ◌≢◌, refl, ◌↔◌, ◌⊎◌, inl, inr, ℤ, pos, ◌≤ℤ◌, ◌-◌, pos_part,
  Bool, true, false, Option, none, some, List, [], ◌∷◌, ◌++◌, map, keep, Dict, lookup, nat_eq,
  list_eq, Result, ok, err, Text, codes, All, length, arith, ltb_ℤ, if◌then◌else◌,
}
use nexgo.Ch.Error.{is_schema_related_error}
use nexgo.Ch.Writer.Store.{
  Store, is_insertable, fetch_table_columns, get_table_columns, refresh_table_schema,
  do_batch_insert, insert_with, batch_insert, insert_rows,
}
use nexgo.Ch.Writer.Store.Rows.{Delivered, insert_rows-Delivered}
use nexgo.Ch.Writer.Store.Mismatch.{batch_insert_mismatch}
use nexgo.Ch.Writer.Tests.Server.{
  server, codec, wire, server_wire, logs, misfit, store_at, known, two_rows, insert_failed,
  no_error,
}

fetches_once :
    get_table_columns server codec logs (store_at [] 0 [])
    ≡ (ok (codes "id" ∷ []), store_at [] 0 known)
unfolding get_table_columns lookup nexgo.Base.insert fetch_table_columns is_insertable
    nexgo.Ch.Writer.Store.scan_columns
fetches_once = refl

refreshes : refresh_table_schema server codec logs (store_at [] 0 []) ≡ (none, store_at [] 0 known)
unfolding refresh_table_schema nexgo.Base.insert lookup fetch_table_columns is_insertable
    nexgo.Ch.Writer.Store.scan_columns
refreshes = refl

insert_rows-Delivered_example :
    Delivered server codec wire server_wire logs
      (codes "id" ∷ [])
      two_rows
      (store_at [] 0 known).world
      (insert_rows server codec logs (codes "id" ∷ []) two_rows (store_at [] 0 known).world)
insert_rows-Delivered_example =
    insert_rows-Delivered server codec wire server_wire logs (codes "id" ∷ []) two_rows
      (store_at [] 0 known).world

misfits :
    do_batch_insert server codec logs two_rows (store_at (misfit ∷ []) 0 known)
    ≡ (some (insert_failed misfit), store_at [] 0 known)
unfolding do_batch_insert get_table_columns lookup insert_rows
misfits = refl

refreshes_known :
    refresh_table_schema server codec logs (store_at [] 0 known) ≡ (none, store_at [] 0 known)
unfolding refresh_table_schema nexgo.Base.insert lookup fetch_table_columns is_insertable
    nexgo.Ch.Writer.Store.scan_columns
refreshes_known = refl

batch_insert_mismatch_example :
    (is_schema_related_error (insert_failed misfit) ≡ false
      → batch_insert server codec logs two_rows (store_at (misfit ∷ []) 0 known)
        ≡ (some (insert_failed misfit), store_at [] 0 known))
    × (is_schema_related_error (insert_failed misfit) ≡ true
        → no_error ≢ none
        → batch_insert server codec logs two_rows (store_at (misfit ∷ []) 0 known)
          ≡ (some (insert_failed misfit), store_at [] 0 known))
    × (is_schema_related_error (insert_failed misfit) ≡ true
        → no_error ≡ none
        → (cols : List Text) × ((fetch_table_columns server codec logs
              (store_at [] 0 known).world).0
            ≡ ok cols)
          × (batch_insert server codec logs two_rows (store_at (misfit ∷ []) 0 known)
              ≡ insert_with server codec logs two_rows (ok cols, store_at [] 0 known)))
batch_insert_mismatch_example =
    batch_insert_mismatch server codec logs (logs, 1) ((logs, 2) ∷ [])
      (store_at (misfit ∷ []) 0 known) (store_at [] 0 known) (store_at [] 0 known)
      (insert_failed misfit) misfits none refreshes_known
