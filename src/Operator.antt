-- ===== src/Operator.antt =====
-- sdk/src/cloudfall/operator.py.
pub mod Records
pub mod World
pub mod Store
pub mod Approve
pub mod Trigger
pub mod Sound
pub mod Autonomy
pub mod Histories
pub mod Drift
