-- ===== src/Kafka.antt =====
-- Package kafka: the configuration, the consumer instances, their statistics, and the producer.
pub mod Config
pub mod Consume
pub mod Consumer
pub mod Stats
pub mod Producer
pub mod Connect
pub mod Settings
mod Tests
