-- ===== src/Serial.antt =====
-- Events to rows and messages, and back: payments/infrastructure/utils/events/serializer.py and
-- rebuilder.py, and the schemas of payments/presentation/ampq/api/v1/schemas.
pub mod Value
pub mod Event
pub mod Rebuild
pub mod Converted
pub mod Laws
pub mod Roundtrip
