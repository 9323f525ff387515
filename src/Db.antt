-- ===== src/Db.antt =====
-- Package db: the settings that the drivers share, and the connection strings of MySQL and PostgreSQL.
pub mod Settings
pub mod Mysql
pub mod Postgres
pub mod Merged
mod Tests
