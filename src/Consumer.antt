-- ===== src/Consumer.antt =====
-- The AMQP consumers: payments/presentation/ampq/api/v1/events.
pub mod Message
pub mod Process
pub mod Notify
pub mod Poll
pub mod Failure
