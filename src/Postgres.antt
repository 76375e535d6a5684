-- ===== src/Postgres.antt =====
-- The Postgres exporter, collector/postgres.
pub mod Types
pub mod Convert
pub mod Builtin
pub mod DescMap
pub mod Namespace
pub mod Overrides
pub mod Settings
pub mod Labels
pub mod Dsn
pub mod UserQueries
pub mod Version
pub mod Servers
pub mod Exporter
pub mod Scrape
pub mod Setup
pub mod BuiltinQueries
mod Tests
