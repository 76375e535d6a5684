-- ===== src/Shared.antt =====
-- What the MongoDB collector shares, collector/shared: the connection to a server.
pub mod Connection
mod Tests
