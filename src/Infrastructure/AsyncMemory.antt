-- ===== src/Infrastructure/AsyncMemory.antt =====
-- src/dispatch_core/infrastructure/async_memory.py. Reading the store, numbering and committing are one
-- step of a task each; saving touches the unit alone.
mod Store
mod Repositories
mod Commit
pub use Store.*
unfoldable pub use Repositories.*
unfoldable pub use Commit.*
use dispatch_core.Application.AsyncPorts.{AsyncUnitOfWork}

abbrev pub async_memory : AsyncUnitOfWork AsyncMemoryStore AsyncMemoryUnitOfWork
async_memory = record {
  begin = begin;
  orders = record {
    allocate_public_number = allocate_public_number;
    get = get_order;
    save = save_order;
  };
  tracking = record {
    get = get_session;
    find_active_for_order = find_active_for_order;
    has_source_event = has_source_event;
    save = save_session;
  };
  outbox = record { add = add_events };
  commit = commit;
}
