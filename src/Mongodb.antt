-- ===== src/Mongodb.antt =====
-- The MongoDB exporter, collector/mongodb: the oplog and the replica set.
pub mod Oplog
pub mod ReplSet
pub mod Calls
pub mod Registry
pub mod Collector
pub mod Tail
pub mod ReplConf
pub mod Server
pub mod Databases
pub mod Locks
pub mod Pools
pub mod Top
pub mod Collections
pub mod Engine
pub mod Instance
pub mod Metrics
pub mod WiredTiger
mod Tests
