-- ===== src/Decision.antt =====
-- sdk/src/cloudfall/decision.py: the gate and the record of what an agent proposed.
pub mod Records
pub mod Errors
pub mod Gate
pub mod Inputs
pub mod World
pub mod Store
pub mod Run
pub mod Prepare
pub mod Propose
pub mod Approve
pub mod Sound
