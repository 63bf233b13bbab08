-- ===== src/Cutover.antt =====
-- sdk/src/cloudfall/cutover.py.
pub mod Names
pub mod Message
pub mod Probe
