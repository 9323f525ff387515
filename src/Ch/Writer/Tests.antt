-- ===== src/Ch/Writer/Tests.antt =====
-- Runs of the writer of ch/writer.go, and the theorems about it at concrete inputs.
mod Server
mod Loops
mod Inserts
mod Flushes
mod Measures
mod Systems
