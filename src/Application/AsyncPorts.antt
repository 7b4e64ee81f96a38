-- ===== src/Application/AsyncPorts.antt =====
-- src/dispatch_core/application/async_ports.py: what the asynchronous service asks of a unit of work
-- `U` on a store `S`. The ends of a unit are not here: see `within`.
use dispatch_core.Shared.{ℕ, Bool, String, Option, List}
use dispatch_core.Domain.Errors.{ok}
use dispatch_core.Domain.Events.{DomainEvent}
use dispatch_core.Domain.WorkOrder.{WorkOrder}
use dispatch_core.Domain.Tracking.{TrackingSession}
use dispatch_core.Application.Task.{Task, Async, continue, finished}

pub record AsyncWorkOrderRepository (S U : Type 0) : Type 0 where
  pub allocate_public_number : String → Async S U String
  pub get : String → String → Async S U WorkOrder
  pub save : WorkOrder → Option ℕ → Async S U (Unit {0})

pub record AsyncTrackingRepository (S U : Type 0) : Type 0 where
  pub get : String → String → Async S U TrackingSession
  pub find_active_for_order : String → String → Async S U (Option TrackingSession)
  pub has_source_event : String → String → String → Async S U Bool
  pub save : TrackingSession → Option ℕ → Async S U (Unit {0})

pub record AsyncOutbox (S U : Type 0) : Type 0 where
  pub add : List DomainEvent → Async S U (Unit {0})

-- `begin` is the factory's call with `__aenter__`.
pub record AsyncUnitOfWork (S U : Type 0) : Type 0 where
  pub begin : U
  pub orders : AsyncWorkOrderRepository S U
  pub tracking : AsyncTrackingRepository S U
  pub outbox : AsyncOutbox S U
  pub commit : Async S U (Unit {0})

-- `async with self._unit_of_work() as uow: body`. The unit is gone after it, and with it what it
-- staged, which is all that `__aexit__` drops.
abbrev pub within : {S U A : Type 0} → AsyncUnitOfWork S U → Async S U A → Task S A
within uow body = continue (body uow.begin) (λ a u. finished (ok a))
