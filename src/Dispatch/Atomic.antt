-- ===== src/Dispatch/Atomic.antt =====
-- A request that raises changes nothing, but for the number that a creation has used up.
use dispatch_core.Shared.{◌≡◌, refl, String, none, arith}
use dispatch_core.Domain.Errors.{Error, Result, ok, err}
use dispatch_core.Domain.Events.{Ambient}
use dispatch_core.Domain.WorkOrder.{Command, apply}
use dispatch_core.Application.Service
use dispatch_core.Infrastructure.Memory.{MemoryStore, in_memory}
use dispatch_core.Dispatch.Requests.{Request, OrderCall, serve, serve_call, ended}
use dispatch_core.Dispatch.Change.{change_order-err}
use dispatch_core.Dispatch.Creation.{numbered, create_order-err}
use dispatch_core.Dispatch.Closing.{close_order-err}
use dispatch_core.Dispatch.Travel.{start_travel-err}
use dispatch_core.Dispatch.Locations.{record_location-err}

-- The command of the work order that a call runs.
abbrev pub command : OrderCall → Command
command (OrderCall.claim_coordination c) = Command.claim_coordination c
command (OrderCall.publish_pool m a) = Command.publish_pool m a
command (OrderCall.express_interest e) = Command.express_interest e
command (OrderCall.withdraw_interest e) = Command.withdraw_interest e
command (OrderCall.claim_first e) = Command.claim_first e
command (OrderCall.assign_order e a) = Command.assign e a
command (OrderCall.accept_order e) = Command.accept e
command (OrderCall.reject_assignment e) = Command.reject_assignment e
command (OrderCall.start_work e) = Command.start_work e

pub serve_call-eq-change_order :
    (org id : String) (c : OrderCall) (env : Ambient) (s : MemoryStore)
    → serve_call org id c env s
      ≡ Service.change_order in_memory org id (apply (command c) none env) s
unfolding serve_call apply Service.claim_coordination Service.publish_pool Service.express_interest
    Service.withdraw_interest Service.claim_first Service.assign_order Service.accept_order
    Service.reject_assignment Service.start_work
serve_call-eq-change_order org id (OrderCall.claim_coordination c) env s = refl
serve_call-eq-change_order org id (OrderCall.publish_pool m a) env s = refl
serve_call-eq-change_order org id (OrderCall.express_interest e) env s = refl
serve_call-eq-change_order org id (OrderCall.withdraw_interest e) env s = refl
serve_call-eq-change_order org id (OrderCall.claim_first e) env s = refl
serve_call-eq-change_order org id (OrderCall.assign_order e a) env s = refl
serve_call-eq-change_order org id (OrderCall.accept_order e) env s = refl
serve_call-eq-change_order org id (OrderCall.reject_assignment e) env s = refl
serve_call-eq-change_order org id (OrderCall.start_work e) env s = refl

ended-err :
    {A : Type 0} (r : Result A × MemoryStore) {e : Error} {s' : MemoryStore}
    → ended r ≡ (err e, s')
    → r ≡ (err e, s')
ended-err (ok a, s) h = absurd (ground arith)
ended-err (err x, s) h = ground arith

-- What a request that raises leaves behind.
abbrev pub left_by : Request → MemoryStore → MemoryStore
left_by (Request.create_order a uuid env) s = numbered a.organization_id s
left_by _ s = s

-- A request that raises leaves the store as it was, but for a creation that raises, which has moved
-- the counter of its organization on and changed nothing else.
pub serve-atomic :
    (q : Request) (s : MemoryStore) {e : Error} {s' : MemoryStore}
    → serve q s ≡ (err e, s')
    → s' ≡ left_by q s
unfolding serve
serve-atomic (Request.create_order a uuid env) s h = create_order-err a uuid env s (ended-err _ h)
serve-atomic (Request.call org id c env) s h =
    change_order-err org id (apply (command c) none env) s
      (rw serve_call-eq-change_order at (ended-err _ h))
serve-atomic (Request.cancel_order org id reason actor env env') s h =
    unfold Service.cancel_order in close_order-err org id _ _ s (ended-err _ h)
serve-atomic (Request.complete_order org id executor report env env') s h =
    unfold Service.complete_order in close_order-err org id _ _ s (ended-err _ h)
serve-atomic (Request.start_travel org id executor session uuid fresh env env') s h =
    start_travel-err org id executor session uuid fresh env env' s (ended-err _ h)
serve-atomic (Request.record_location org executor session a now env) s h =
    record_location-err org executor session a now env s (ended-err _ h)
