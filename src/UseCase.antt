-- ===== src/UseCase.antt =====
-- The use cases: payments/application.
pub mod Create
pub mod Process
pub mod Query
pub mod Ports
