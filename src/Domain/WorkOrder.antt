-- ===== src/Domain/WorkOrder.antt =====
-- src/dispatch_core/domain/work_order.py. Every method tests its conditions before its first write,
-- so a method that raises leaves the object as it was: a method is a function into `Result`.
mod Data
mod Guards
mod Methods
mod Commands
pub mod Lifecycle
pub mod Enabled
pub mod Invariant
pub mod Copies
pub mod Pool
pub mod Recording
pub mod Claims
pub use Data.*
unfoldable pub use Guards.*
unfoldable pub use Methods.*
pub use Commands.{Command}
unfoldable pub use Commands.{apply}
