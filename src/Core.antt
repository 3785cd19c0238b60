-- ===== src/Core.antt =====
-- The platform core (apps/backend/src/biaice/core).
pub mod Errors
pub mod Scope
pub mod Gates
pub mod Audit
pub mod Outbox
pub mod Tests
