-- ===== src/Concurrent.antt =====
-- Requests and deliveries at the same time: their transactions, a statement at a time, in any
-- order.
pub mod Creation
pub mod Commits
pub mod Invariant
pub mod Unique
pub mod Processing
pub mod Holds
pub mod Told
pub mod Settles
pub mod Safety
pub mod Once
pub mod Single
