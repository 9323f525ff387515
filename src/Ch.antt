-- ===== src/Ch.antt =====
-- Package ch: the ClickHouse client, its batch writer and its column converters.
pub mod Error
pub mod Env
pub mod Writer
pub mod Converter
pub mod Client
