-- ===== src/Domain.antt =====
-- The domain layer: the value objects of payments/domain/value_objects over the base of
-- shared/domain/value_object.py, the events, the `Payment` aggregate with its base and its equality,
-- the interface of its repository, and the bases of entities and specifications.
pub mod ValueObject
pub mod Amount
pub mod Description
pub mod Identity
pub mod Metadata
pub mod Timestamp
pub mod Webhook
pub mod Event
pub mod Payment
pub mod Laws
pub mod Equality
pub mod Once
pub mod Accepts
pub mod Aggregate
pub mod FieldTypes
pub mod Entity
pub mod Specification
pub mod Repository
