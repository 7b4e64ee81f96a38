-- ===== src/Application/Ports.antt =====
-- src/dispatch_core/application/ports.py: what the service asks of a unit of work. `S` is the store,
-- which outlives the unit, and `U` is the unit at work on it.
use dispatch_core.Shared.{ℕ, String, Option, List}
use dispatch_core.Domain.Events.{DomainEvent}
use dispatch_core.Domain.WorkOrder.{WorkOrder}
use dispatch_core.Domain.Tracking.{TrackingSession}
use dispatch_core.Application.Exec.{Exec}

pub record WorkOrderRepository (U : Type 0) : Type 0 where
  pub allocate_public_number : String → Exec U String
  pub get : String → String → Exec U WorkOrder
  pub save : WorkOrder → Option ℕ → Exec U (Unit {0})

pub record TrackingRepository (U : Type 0) : Type 0 where
  pub get : String → String → Exec U TrackingSession
  pub find_active_for_order : String → String → Exec U (Option TrackingSession)
  pub save : TrackingSession → Option ℕ → Exec U (Unit {0})

pub record Outbox (U : Type 0) : Type 0 where
  pub add : List DomainEvent → Exec U (Unit {0})

-- `begin` is the factory's call with `__enter__`, and `finish` is `__exit__`, which leaves the store.
pub record UnitOfWork (S U : Type 0) : Type 0 where
  pub begin : S → U
  pub finish : U → S
  pub orders : WorkOrderRepository U
  pub tracking : TrackingRepository U
  pub outbox : Outbox U
  pub commit : Exec U (Unit {0})

-- `with self._unit_of_work() as uow: body`; an exception goes on after `__exit__`.
abbrev pub within : {S U A : Type 0} → UnitOfWork S U → Exec U A → Exec S A
within uow body s = let (r, u) = body (uow.begin s) in (r, uow.finish u)
