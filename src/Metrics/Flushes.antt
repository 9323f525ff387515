-- ===== src/Metrics/Flushes.antt =====
-- OnFlush of metrics/chmetrics/chmetrics.go. A metric vector is what was observed of it: the value of a
-- counter at a label is the sum of what was added there.
pub mod Totals
use nexgo.Base.{ℕ, suc, ◌+◌, Bool, Option, none, some, List, [], ◌∷◌, text_eq, if◌then◌else◌}
use nexgo.Ch.Error.{TableName, Error}

-- What is added to rowsWritten and writeErrors, observed by batchSize and flushDuration, and set in
-- lastFlush, each at its label.
pub data Sample : Type 0 where
  rows_written write_errors batch_size flush_duration last_flush : TableName → ℕ → Sample

-- What OnFlush does at a time.
unfoldable pub on_flush : TableName → ℕ → ℕ → Option Error → ℕ → List Sample
on_flush t rows duration (some e) now =
    batch_size t rows ∷ flush_duration t duration ∷ write_errors t rows ∷ []
on_flush t rows duration none now =
    batch_size t rows ∷ flush_duration t duration ∷ rows_written t rows ∷ last_flush t now ∷ []

-- The values of the two counters at a label, and how many batches were observed there.
abbrev pub at_label : TableName → TableName → ℕ → ℕ
at_label t u n = if text_eq t u then n else 0

abbrev pub rows_written_at : TableName → List Sample → ℕ
rows_written_at t [] = 0
rows_written_at t (rows_written u n ∷ xs) = at_label t u n + rows_written_at t xs
rows_written_at t (x ∷ xs) = rows_written_at t xs

abbrev pub write_errors_at : TableName → List Sample → ℕ
write_errors_at t [] = 0
write_errors_at t (write_errors u n ∷ xs) = at_label t u n + write_errors_at t xs
write_errors_at t (x ∷ xs) = write_errors_at t xs

abbrev pub batches_at : TableName → List Sample → ℕ
batches_at t [] = 0
batches_at t (batch_size u n ∷ xs) = at_label t u 1 + batches_at t xs
batches_at t (x ∷ xs) = batches_at t xs
