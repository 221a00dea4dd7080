-- ===== src/Platform.antt =====
-- backend/app/modules/platform
pub mod Idempotency
pub mod Audit
pub mod Auth
pub mod Moderation
pub mod Redaction
pub mod Users
