-- ===== src/Messaging.antt =====
-- services/shared/events/consumer.js and services/shared/utils/rabbitmq.js: the queues.
pub mod Consumer
pub mod Connection
pub mod Email
pub mod Tracing
mod Tests
