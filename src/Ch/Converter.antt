-- ===== src/Ch/Converter.antt =====
-- ch/converter.go: the columns of a table and the conversion of Go values to what they hold.
pub mod Value
pub mod Scalar
pub mod Other
pub mod Column
pub mod Columns
pub mod Container
pub mod Evaluate
mod Tests
