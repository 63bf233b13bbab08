-- ===== src/Audit.antt =====
-- The audit of observed servers against their declared types: audit.py.
pub mod Values
pub mod Checks
pub mod Host
pub mod Units
pub mod Raid
pub mod Firewall
pub mod Sockets
pub mod Alerts
pub mod Report
