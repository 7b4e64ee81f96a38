-- ===== src/Domain.antt =====
-- src/dispatch_core/domain: the transport-neutral kernel.
pub mod Errors
pub mod Events
pub mod OrderNumbers
pub mod WorkOrder
pub mod Floats
pub mod Tracking
