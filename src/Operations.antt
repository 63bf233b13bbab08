-- ===== src/Operations.antt =====
-- The view of the operations of servers: operations.py.
pub mod Records
pub mod Values
pub mod Capacity
pub mod Smart
pub mod Tasks
pub mod Server
pub mod Domain
