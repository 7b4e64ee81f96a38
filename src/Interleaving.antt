-- ===== src/Interleaving.antt =====
-- Tasks of the asynchronous service that share the store in memory and interleave at every step.
pub mod Growth
pub mod Steady
pub mod Trace
pub mod Fitting
pub mod Calls
pub mod Locations
pub mod Requests
pub mod Uninterrupted
pub mod Atomic
pub mod Alone
pub mod Submissions
pub mod Retry
pub mod Clock
