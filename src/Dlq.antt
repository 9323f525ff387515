-- ===== src/Dlq.antt =====
-- Package dlq: the recorder of failed records.
pub mod Recorder
mod Tests
