-- ===== src/Ch/Writer.antt =====
-- The batch writer of ch/writer.go.
pub mod Config
pub mod Loop
pub mod System
pub mod Store
pub mod Flush
mod Tests
