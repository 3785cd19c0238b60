-- ===== src/Simulation.antt =====
-- The pure decision logic of the simulation module (modules/simulation/domain).
pub mod Eligibility
pub mod Merge
pub mod Selection
pub mod Stress
pub mod Tests
