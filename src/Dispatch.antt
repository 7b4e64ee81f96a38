-- ===== src/Dispatch.antt =====
-- `DispatchService(InMemoryUnitOfWorkFactory(store))`: the service over the in-memory units of work.
pub mod Change
pub mod Orders
pub mod Sessions
pub mod Counts
pub mod Links
pub mod Closing
pub mod Travel
pub mod Creation
pub mod Locations
pub mod Clock
pub mod Requests
pub mod Atomic
pub mod Sound
