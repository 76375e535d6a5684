-- ===== src/Postgres/Tests.antt =====
-- The theorems on the Postgres exporter at concrete inputs, with a small world that stands for the
-- packages that are called.
pub mod Setup
pub mod World
mod Text
mod Columns
mod Runs
mod Queries
