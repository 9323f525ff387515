-- ===== src/Ch/Converter/Container.antt =====
-- The values of Map and Array columns: MapConverter, ArrayConverter and what they call in
-- ch/converter.go. Go's types and values, the coercion of a value to a type, the conversion of
-- elements and containers, and what holds of the results.
pub mod Types
pub mod Coerce
pub mod Elements
pub mod Shapes
pub mod Conforms
pub mod Built
pub mod Typed
pub mod Kept
pub mod Lossy
pub mod Columns
pub mod Absent
mod Tests
