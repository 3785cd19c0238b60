-- ===== src/Approvals.antt =====
-- Risk acceptance (apps/backend/src/biaice/modules/approvals_reports).
pub mod Risk
pub mod Service
pub mod Invariant
pub mod Laws
pub mod Creating
pub mod Tests
