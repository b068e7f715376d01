-- ===== src/System.antt =====
-- The service as a whole: an abstract specification of what its operations may do to the committed
-- database, that the operations keep to it, and what holds of every state that they reach.
pub mod Change
pub mod Refinement
pub mod Rules
pub mod Runs
pub mod Handlers
pub mod Delivery
pub mod Invariant
pub mod Served
pub mod Rows
pub mod Idempotency
pub mod Lookup
pub mod Claims
pub mod Settlement
pub mod Notified
pub mod Lifecycle
pub mod Complete
pub mod GivesUp
pub mod DeadLetter
pub mod Progress
pub mod Mail
pub mod Relay
pub mod Recovery
pub mod Acks
pub mod AckOnce
pub mod AckNotify
pub mod Emits
pub mod Consumers
pub mod Retries
