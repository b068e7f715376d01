-- ===== src/Http.antt =====
-- The HTTP side: payments/presentation/http.
pub mod Errors
pub mod Statuses
pub mod Routes
pub mod Answers
