-- ===== src/Infrastructure/Memory.antt =====
-- src/dispatch_core/infrastructure/memory.py. The repositories hand out the value itself where the source
-- hands out a deep copy; the copy of an order is `deep_copy` in Domain/WorkOrder/Copies.
mod Store
mod Repositories
mod Commit
pub mod Capacity
pub mod Versions
pub use Store.*
unfoldable pub use Repositories.*
unfoldable pub use Commit.*
use dispatch_core.Application.Ports.{UnitOfWork}

-- The repositories of `InMemoryUnitOfWork`, which the factory binds to a store.
abbrev pub in_memory : UnitOfWork MemoryStore InMemoryUnitOfWork
in_memory = record {
  begin = begin;
  finish = exit;
  orders = record {
    allocate_public_number = allocate_public_number;
    get = get_order;
    save = save_order;
  };
  tracking = record {
    get = get_session;
    find_active_for_order = find_active_for_order;
    save = save_session;
  };
  outbox = record { add = add_events };
  commit = commit;
}
