-- ===== src/Ch/Writer/Tests/Flushes.antt =====
-- flush of ch/writer.go on the server of test data.
use nexgo.Base.{
  ℕ, ◌*◌, ◌^◌, ◌≤◌, ◌≡◌, refl, pos, true, none, some, List, [], ◌∷◌, lookup, nat_eq, list_eq,
}
use nexgo.Ch.Error.{TableName, Error, is_retryable_error, is_schema_related_error}
use nexgo.Ch.Writer.Config.{second}
use nexgo.Ch.Writer.Store.{fetch_table_columns, get_table_columns, do_batch_insert, batch_insert}
use nexgo.Ch.Writer.Flush.{
  Attempt, not_tried, rejected, Stats, rounds, insert_attempts, flush, flush_table, backoff,
}
use nexgo.Ch.Writer.Flush.Attempts.{Tries, insert_attempts-Tries}
use nexgo.Ch.Writer.Flush.Hooks.{reported, gave_up, calls, outcomes, flush-calls}
use nexgo.Ch.Writer.Tests.Server.{
  Row, server, codec, told, server_logs, logs, metrics, broken, store_at, known, two_rows,
  insert_failed,
}

abbrev buffer : List (TableName × List Row)
buffer = (logs, two_rows) ∷ (metrics, (metrics, 3) ∷ []) ∷ []

abbrev no_rows : Stats
no_rows = record { success_rows = 0; failed_rows = 0; total_rows = 0 }

-- The first table fails twice with one retry allowed; the second succeeds.
flush_gives_up :
    (flush server codec
      (pos 1)
      buffer
      no_rows
      (store_at (broken ∷ broken ∷ []) 0 known)).1.world.told
    ≡ reported logs 2 (some (insert_failed broken))
      ∷ gave_up logs two_rows (insert_failed broken)
      ∷ reported metrics 1 none
      ∷ []
unfolding flush nexgo.Ch.Writer.Flush.flush_table nexgo.Ch.Writer.Flush.conclude insert_attempts
    batch_insert do_batch_insert get_table_columns lookup is_schema_related_error is_retryable_error
    fetch_table_columns
flush_gives_up = refl

flush-calls_example :
    (flush server codec
      (pos 1)
      buffer
      no_rows
      (store_at (broken ∷ broken ∷ []) 0 known)).1.world.told
    ≡ calls server codec told server_logs buffer (
        outcomes server codec told server_logs
          (pos 1)
          buffer
          (store_at (broken ∷ broken ∷ []) 0 known))
flush-calls_example =
    flush-calls server codec told server_logs (pos 1) buffer no_rows
      (store_at (broken ∷ broken ∷ []) 0 known)

insert_attempts-Tries_example :
    let r =
      insert_attempts server codec
        (pos 1)
        logs
        two_rows
        (rounds (pos 1))
        0
        not_tried
        (store_at (broken ∷ []) 0 known) in
    ((flush_table server codec (pos 1) logs two_rows (store_at (broken ∷ []) 0 known)).0 ≡ r.0)
    × (k : ℕ) × Tries server codec logs two_rows 1 0 (store_at (broken ∷ []) 0 known) k r.0 r.1
    × (k ≤ 2)
    × ((e : Error) → r.0 ≡ rejected e → is_retryable_error e ≡ true → k ≡ 2)
    × ((n : ℕ) → n ≤ 33 → backoff n ≡ pos (2 ^ n * second))
insert_attempts-Tries_example =
    insert_attempts-Tries server codec logs two_rows 1 (store_at (broken ∷ []) 0 known)
