-- ===== src/Infrastructure/Memory/Store.antt =====
-- The store that units of work share, and the state of one unit.
use dispatch_core.Shared.{ℕ, Bool, false, String, Option, List, []}
use dispatch_core.Shared.Dict.{Dict}
use dispatch_core.Domain.Events.{DomainEvent}
use dispatch_core.Domain.WorkOrder.{WorkOrder}
use dispatch_core.Domain.Tracking.{TrackingSession}

pub record MemoryStore : Type 0 where
  pub orders : Dict String WorkOrder
  pub tracking_sessions : Dict (String × String) TrackingSession
  pub outbox_events : List DomainEvent
  pub order_number_counters : Dict String ℕ

-- What is staged for one aggregate: its snapshot and the version expected in the store.
pub record Staged (A : Type 0) : Type 0 where
  pub snapshot : A
  pub expected_version : Option ℕ

pub record InMemoryUnitOfWork : Type 0 where
  pub store : MemoryStore
  pub staged_orders : Dict String (Staged WorkOrder)
  pub staged_tracking : Dict (String × String) (Staged TrackingSession)
  pub staged_events : List DomainEvent
  pub committed : Bool

-- `__init__`
abbrev pub begin : MemoryStore → InMemoryUnitOfWork
begin store = record {
  store = store;
  staged_orders = [];
  staged_tracking = [];
  staged_events = [];
  committed = false;
}

-- `_clear`
abbrev pub clear : InMemoryUnitOfWork → InMemoryUnitOfWork
clear u = record u { staged_orders = []; staged_tracking = []; staged_events = [] }

-- `__exit__` drops what is staged and was not committed; it never touches the store.
abbrev pub exit : InMemoryUnitOfWork → MemoryStore
exit u = u.store
