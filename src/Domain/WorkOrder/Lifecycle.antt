-- ===== src/Domain/WorkOrder/Lifecycle.antt =====
-- The life cycle: which status may follow which, and that a terminal order is final.
use dispatch_core.Shared.{Bool, true, false, ◌≡◌, refl, Option, arith}
use dispatch_core.Domain.Errors.{ok}
use dispatch_core.Domain.Events.{Ambient, Instant}
use dispatch_core.Domain.WorkOrder.Data.{WorkOrder, WorkOrderStatus, is_terminal}
use dispatch_core.Domain.WorkOrder.Commands.{Command, apply}

-- The documented life cycle, as a relation between the statuses before and after one command.
pub data Step : WorkOrderStatus → WorkOrderStatus → Type 0 where
  stay : {s : WorkOrderStatus} → is_terminal s ≡ false → Step s s
  publish : Step WorkOrderStatus.submitted WorkOrderStatus.pool_open
  take : Step WorkOrderStatus.pool_open WorkOrderStatus.assigned
  take_direct : Step WorkOrderStatus.submitted WorkOrderStatus.assigned
  accept : Step WorkOrderStatus.assigned WorkOrderStatus.accepted
  back_to_pool : Step WorkOrderStatus.assigned WorkOrderStatus.pool_open
  back_to_start : Step WorkOrderStatus.assigned WorkOrderStatus.submitted
  travel : Step WorkOrderStatus.accepted WorkOrderStatus.en_route
  work_at_once : Step WorkOrderStatus.accepted WorkOrderStatus.in_progress
  work : Step WorkOrderStatus.en_route WorkOrderStatus.in_progress
  finish : Step WorkOrderStatus.in_progress WorkOrderStatus.completed
  stop : {s : WorkOrderStatus} → is_terminal s ≡ false → Step s WorkOrderStatus.cancelled

-- The same as a table, which the tactics read.
abbrev follows : WorkOrderStatus → WorkOrderStatus → Bool
follows WorkOrderStatus.submitted WorkOrderStatus.submitted = true
follows WorkOrderStatus.submitted WorkOrderStatus.pool_open = true
follows WorkOrderStatus.submitted WorkOrderStatus.assigned = true
follows WorkOrderStatus.pool_open WorkOrderStatus.pool_open = true
follows WorkOrderStatus.pool_open WorkOrderStatus.assigned = true
follows WorkOrderStatus.assigned WorkOrderStatus.assigned = true
follows WorkOrderStatus.assigned WorkOrderStatus.accepted = true
follows WorkOrderStatus.assigned WorkOrderStatus.pool_open = true
follows WorkOrderStatus.assigned WorkOrderStatus.submitted = true
follows WorkOrderStatus.accepted WorkOrderStatus.accepted = true
follows WorkOrderStatus.accepted WorkOrderStatus.en_route = true
follows WorkOrderStatus.accepted WorkOrderStatus.in_progress = true
follows WorkOrderStatus.en_route WorkOrderStatus.en_route = true
follows WorkOrderStatus.en_route WorkOrderStatus.in_progress = true
follows WorkOrderStatus.in_progress WorkOrderStatus.in_progress = true
follows WorkOrderStatus.in_progress WorkOrderStatus.completed = true
follows WorkOrderStatus.completed WorkOrderStatus.cancelled = false
follows WorkOrderStatus.cancelled WorkOrderStatus.cancelled = false
follows _ WorkOrderStatus.cancelled = true
follows _ _ = false

Step-of_follows : (s t : WorkOrderStatus) → follows s t ≡ true → Step s t
Step-of_follows WorkOrderStatus.submitted WorkOrderStatus.submitted h = stay refl
Step-of_follows WorkOrderStatus.submitted WorkOrderStatus.pool_open h = publish
Step-of_follows WorkOrderStatus.submitted WorkOrderStatus.assigned h = take_direct
Step-of_follows WorkOrderStatus.pool_open WorkOrderStatus.pool_open h = stay refl
Step-of_follows WorkOrderStatus.pool_open WorkOrderStatus.assigned h = take
Step-of_follows WorkOrderStatus.assigned WorkOrderStatus.assigned h = stay refl
Step-of_follows WorkOrderStatus.assigned WorkOrderStatus.accepted h = accept
Step-of_follows WorkOrderStatus.assigned WorkOrderStatus.pool_open h = back_to_pool
Step-of_follows WorkOrderStatus.assigned WorkOrderStatus.submitted h = back_to_start
Step-of_follows WorkOrderStatus.accepted WorkOrderStatus.accepted h = stay refl
Step-of_follows WorkOrderStatus.accepted WorkOrderStatus.en_route h = travel
Step-of_follows WorkOrderStatus.accepted WorkOrderStatus.in_progress h = work_at_once
Step-of_follows WorkOrderStatus.en_route WorkOrderStatus.en_route h = stay refl
Step-of_follows WorkOrderStatus.en_route WorkOrderStatus.in_progress h = work
Step-of_follows WorkOrderStatus.in_progress WorkOrderStatus.in_progress h = stay refl
Step-of_follows WorkOrderStatus.in_progress WorkOrderStatus.completed h = finish
Step-of_follows WorkOrderStatus.completed WorkOrderStatus.cancelled h = cc
Step-of_follows WorkOrderStatus.cancelled WorkOrderStatus.cancelled h = cc
Step-of_follows WorkOrderStatus.submitted WorkOrderStatus.cancelled h = stop refl
Step-of_follows WorkOrderStatus.pool_open WorkOrderStatus.cancelled h = stop refl
Step-of_follows WorkOrderStatus.assigned WorkOrderStatus.cancelled h = stop refl
Step-of_follows WorkOrderStatus.accepted WorkOrderStatus.cancelled h = stop refl
Step-of_follows WorkOrderStatus.en_route WorkOrderStatus.cancelled h = stop refl
Step-of_follows WorkOrderStatus.in_progress WorkOrderStatus.cancelled h = stop refl
Step-of_follows _ _ h = cc

module _ (now : Option Instant) (env : Ambient) (o : WorkOrder) {o' : WorkOrder} where
  apply-follows : (c : Command) → apply c now env o ≡ ok o' → follows o.status o'.status ≡ true
  unfolding apply
  apply-follows (Command.claim_coordination c) h = ground arith
  apply-follows (Command.publish_pool m a) h = ground arith
  apply-follows (Command.express_interest e) h = ground arith
  apply-follows (Command.withdraw_interest e) h = ground arith
  apply-follows (Command.claim_first e) h = ground arith
  apply-follows (Command.assign e a) h = ground arith
  apply-follows (Command.accept e) h = ground arith
  apply-follows (Command.reject_assignment e) h = ground arith
  apply-follows (Command.start_travel e) h = ground arith
  apply-follows (Command.start_work e) h = ground arith
  apply-follows (Command.complete e r) h = ground arith
  apply-follows (Command.cancel r a) h = ground arith

  -- A command that succeeds leaves the status as it is, if that is not terminal, or moves it along
  -- one arrow of the life cycle; so no command succeeds on a terminal order.
  pub apply-Step : (c : Command) → apply c now env o ≡ ok o' → Step o.status o'.status
  apply-Step c h = Step-of_follows o.status o'.status (apply-follows c h)
