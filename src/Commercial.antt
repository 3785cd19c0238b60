-- ===== src/Commercial.antt =====
-- Costs, policies and the readiness of a strategy (apps/backend/src/biaice/modules/commercial).
pub mod Model
pub mod Store
pub mod Costs
pub mod Readiness
pub mod Baselines
pub mod Verdicts
pub mod Tests
