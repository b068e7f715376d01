-- ===== src/Broker.antt =====
-- The RabbitMQ side: payments/infrastructure/broker and shared/infra/broker/utils.
pub mod Routes
pub mod Retry
pub mod Bus
pub mod Order
pub mod Backoff
pub mod Topology
pub mod Paths
pub mod Returns
