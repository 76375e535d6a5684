-- ===== src/Kafka.antt =====
-- The Kafka exporter: collector/kafka/collector.go and handlers/kafkahandler.go.
pub mod Types
pub mod Gauges
pub mod Descs
pub mod Config
pub mod Topics
pub mod Groups
pub mod Collect
mod Tests
