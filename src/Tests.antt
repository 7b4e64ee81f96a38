-- ===== src/Tests.antt =====
-- Runs on concrete data, and the theorems at inputs that meet their hypotheses.
pub mod Data
mod Orders
mod Tracking
mod Storage
mod Service
mod Packs
mod Connectivity
mod Intake
mod Interleaving
