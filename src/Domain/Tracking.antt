-- ===== src/Domain/Tracking.antt =====
-- src/dispatch_core/domain/tracking.py. As in work_order.py, a method that raises has written nothing.
mod Data
mod Methods
pub mod Invariant
pub mod Points
pub mod Frame
unfoldable pub use Data.*
unfoldable pub use Methods.*
