-- ===== src/Governance/Deletion.antt =====
-- The deletion coordinator (governance/application/deletion.py) over its ports
-- (governance/application/ports.py).
pub mod Job
pub mod Receipts
pub mod Run
pub mod Laws
pub mod Completion
pub mod Effects
pub mod Tests
