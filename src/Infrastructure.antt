-- ===== src/Infrastructure.antt =====
-- src/dispatch_core/infrastructure: the in-memory unit of work.
pub mod Memory
pub mod AsyncMemory
