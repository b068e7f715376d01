-- ===== src/Notifier.antt =====
-- Webhook notifications: application/strategies, application/handlers/events/notify.py and
-- infrastructure/notifications.
pub mod Strategy
pub mod Sender
pub mod Attempts
pub mod Payload
