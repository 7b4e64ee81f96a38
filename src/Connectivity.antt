-- ===== src/Connectivity.antt =====
-- src/dispatch_core/connectivity.
pub mod Egress
pub mod Choice
