-- ===== src/Kafka.antt =====
-- The Kafka consumer of shared/infrastructure/kafka/consumer.
pub mod Failure
pub mod Letter
pub mod Consumer
