-- ===== src/Ch/Writer/Tests/Measures.antt =====
-- The metrics of a flush on the server of test data.
use nexgo.Base.{◌+◌, ◌≡◌, pos, List, [], ◌∷◌, ◌++◌, nat_eq, list_eq}
use nexgo.Ch.Error.{TableName}
use nexgo.Ch.Writer.Flush.{flush, Stats}
use nexgo.Ch.Writer.Flush.Hooks.{Call}
use nexgo.Metrics.Flushes.{rows_written_at, write_errors_at, batches_at}
use nexgo.Metrics.Flushes.Totals.{
  observed, rows_of_table, batches_of_table, rows_given_up, flush-observed,
}
use nexgo.Ch.Writer.Tests.Server.{
  Row, server, codec, told, server_logs, logs, metrics, broken, store_at, known, two_rows,
}

abbrev two_tables : List (TableName × List Row)
two_tables = (logs, two_rows) ∷ (metrics, (metrics, 3) ∷ []) ∷ []

abbrev none_yet : Stats
none_yet = record { success_rows = 0; failed_rows = 0; total_rows = 0 }

flush-observed_example :
    (added : List (Call Row)) × (told
        (flush server codec
          (pos 1)
          two_tables
          none_yet
          (store_at (broken ∷ broken ∷ []) 0 known)).1.world
      ≡ told (store_at (broken ∷ broken ∷ []) 0 known).world ++ added)
    × (rows_written_at logs (observed (λ i. i) (λ i. i) 0 added)
          + write_errors_at logs (observed (λ i. i) (λ i. i) 0 added)
        ≡ rows_of_table logs two_tables)
    × (write_errors_at logs (observed (λ i. i) (λ i. i) 0 added) ≡ rows_given_up logs added)
    × (batches_at logs (observed (λ i. i) (λ i. i) 0 added) ≡ batches_of_table logs two_tables)
flush-observed_example =
    flush-observed server codec told server_logs (λ i. i) (λ i. i) logs (pos 1) two_tables none_yet
      (store_at (broken ∷ broken ∷ []) 0 known) 0
