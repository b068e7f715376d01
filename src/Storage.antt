-- ===== src/Storage.antt =====
-- The database side: payments/infrastructure/database. Statements of the two repositories, and the
-- unit of work around them.
pub mod Numeric
pub mod Payments
pub mod Repository
pub mod Outbox
pub mod Uow
pub mod Pages
pub mod Selection
pub mod Schema
