-- ===== src/Packs.antt =====
-- src/dispatch_core/packs/catalog.py.
pub mod Data
pub mod Fields
pub mod Industry
pub mod Seeds
