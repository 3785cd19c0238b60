-- ===== src/Governance.antt =====
-- Governance (apps/backend/src/biaice/modules/governance): invalidation, retention and deletion.
pub mod Invalidation
pub mod Retention
pub mod Deletion
pub mod Tests
