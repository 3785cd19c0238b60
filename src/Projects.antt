-- ===== src/Projects.antt =====
-- The project module: its repository and the service of the lifecycle
-- (apps/backend/src/biaice/modules/projects/application).
pub mod Store
pub mod Service
pub mod Chain
pub mod Checks
pub mod Laws
pub mod Tests
pub mod Resolution
pub mod Pagination
