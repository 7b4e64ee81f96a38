-- ===== src/Infrastructure/AsyncMemory/Store.antt =====
-- `AsyncMemoryStore`, and the state of one `AsyncMemoryUnitOfWork` beside it.
use dispatch_core.Shared.{ℕ, Bool, false, String, List, []}
use dispatch_core.Shared.Dict.{Dict}
use dispatch_core.Domain.Events.{DomainEvent}
use dispatch_core.Domain.WorkOrder.{WorkOrder}
use dispatch_core.Domain.Tracking.{TrackingSession}
use dispatch_core.Infrastructure.Memory.{Staged}

-- A key is an organization with an identifier.
abbrev pub Key : Type 0
Key = String × String

pub record AsyncMemoryStore : Type 0 where
  pub orders : Dict Key WorkOrder
  pub tracking_sessions : Dict Key TrackingSession
  pub outbox_events : List DomainEvent
  pub order_number_counters : Dict String ℕ

pub record AsyncMemoryUnitOfWork : Type 0 where
  pub staged_orders : Dict Key (Staged WorkOrder)
  pub staged_tracking : Dict Key (Staged TrackingSession)
  pub staged_events : List DomainEvent
  pub committed : Bool

abbrev pub begin : AsyncMemoryUnitOfWork
begin = record { staged_orders = []; staged_tracking = []; staged_events = []; committed = false }

-- `_clear`
abbrev pub clear : AsyncMemoryUnitOfWork → AsyncMemoryUnitOfWork
clear u = record u { staged_orders = []; staged_tracking = []; staged_events = [] }
