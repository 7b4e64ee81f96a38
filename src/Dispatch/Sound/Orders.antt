-- ===== src/Dispatch/Sound/Orders.antt =====
-- The calls of `_change_order` and the creation of orders keep the store sound.
use dispatch_core.Shared.{◌≡◌, ◌≢◌, sym, ◌∙◌, true, String, none, [], ◌++◌, append-nil, arith, ap}
use dispatch_core.Domain.Errors.{ok}
use dispatch_core.Domain.Events.{Ambient}
use dispatch_core.Domain.WorkOrder
use dispatch_core.Domain.WorkOrder.{WorkOrder, WorkOrderStatus, CompletionReport, Command, apply}
use dispatch_core.Application.Service
use dispatch_core.Application.Service.{OrderRequest, Location, submission, travel_start, point_of}
use dispatch_core.Infrastructure.Memory.{MemoryStore, in_memory}
use dispatch_core.Dispatch.Change.{Changes, change_order-ok}
use dispatch_core.Dispatch.Creation.{Creates, create_order-ok}
use dispatch_core.Dispatch.Requests.{OrderCall, serve_call}
use dispatch_core.Dispatch.Atomic.{command, serve_call-eq-change_order}
use dispatch_core.Dispatch.Orders.{IsOrderly, move-IsOrderly, create-IsOrderly, apply_identity}
use dispatch_core.Dispatch.Sessions.{IsTracked, is_moving}
use dispatch_core.Dispatch.Links.{move-IsTracked, create-IsTracked}

pub record IsSound (s : MemoryStore) : Type 0 where
  pub orderly : IsOrderly s
  pub tracked : IsTracked s

-- No call of `_change_order` sends an order on its way, or takes one off it.
call_moving :
    (c : OrderCall) (env : Ambient) (o o' : WorkOrder)
    → apply (command c) none env o ≡ ok o'
    → (is_moving o.status ≡ true → is_moving o'.status ≡ true)
      × (o'.status ≡ WorkOrderStatus.en_route → o.status ≡ WorkOrderStatus.en_route)
unfolding apply
call_moving (OrderCall.claim_coordination c) env o o' h = (λ e. ground arith, λ e. ground arith)
call_moving (OrderCall.publish_pool m a) env o o' h = (λ e. ground arith, λ e. ground arith)
call_moving (OrderCall.express_interest x) env o o' h = (λ e. ground arith, λ e. ground arith)
call_moving (OrderCall.withdraw_interest x) env o o' h = (λ e. ground arith, λ e. ground arith)
call_moving (OrderCall.claim_first x) env o o' h = (λ e. ground arith, λ e. ground arith)
call_moving (OrderCall.assign_order x a) env o o' h = (λ e. ground arith, λ e. ground arith)
call_moving (OrderCall.accept_order x) env o o' h = (λ e. ground arith, λ e. ground arith)
call_moving (OrderCall.reject_assignment x) env o o' h = (λ e. ground arith, λ e. ground arith)
call_moving (OrderCall.start_work x) env o o' h = (λ e. ground arith, λ e. ground arith)

pub call-IsSound :
    (org id : String) (c : OrderCall) (env : Ambient) (s : MemoryStore) {order : WorkOrder}
    {s' : MemoryStore}
    → serve_call org id c env s ≡ (ok order, s')
    → IsSound s
    → IsSound s'
call-IsSound org id c env s {order} {s'} h sound =
    let made : Changes org id (apply (command c) none env) s order s' =
      change_order-ok org id (apply (command c) none env) s (rw serve_call-eq-change_order at h) in
    let (same_id, same_org) =
      apply_identity (command c) env made.found made.changed made.is_changed in
    let kept = sound.orderly.kept id made.found made.is_stored in
    let (go, stay) = call_moving c env made.found made.changed made.is_changed in
    record {
      orderly =
          move-IsOrderly (command c) env id made.found made.changed [] s s' sound.orderly
            made.is_stored made.is_changed tt (ap (λ (x : MemoryStore). x.orders) made.store)
            made.capacity
            (ap (λ (x : MemoryStore). x.outbox_events) made.store
              ∙ ap (λ l. s.outbox_events ++ l) (sym (append-nil made.changed.events)));
      tracked =
          move-IsTracked id made.found made.changed s sound.tracked made.is_stored
            (same_id ∙ kept.key) same_org go stay s' (ap (λ (x : MemoryStore). x.orders) made.store)
            (ap (λ (x : MemoryStore). x.tracking_sessions) made.store);
    }

created_status :
    (sub : WorkOrder.Submission) (env : Ambient) (o : WorkOrder)
    → WorkOrder.create sub none env ≡ ok o
    → o.status ≢ WorkOrderStatus.en_route
unfolding WorkOrder.create
created_status sub env o h = ground arith

pub create-IsSound :
    (a : OrderRequest) (uuid : String) (env : Ambient) (s : MemoryStore) {order : WorkOrder}
    {s' : MemoryStore}
    → Service.create_order in_memory a uuid env s ≡ (ok order, s')
    → IsSound s
    → IsSound s'
create-IsSound a uuid env s {order} {s'} h sound =
    let made : Creates a uuid env s order s' = create_order-ok a uuid env s h in
    let sub = submission a uuid made.number in
    record {
      orderly =
          create-IsOrderly sub env made.made s s' sound.orderly made.is_made made.is_new
            (ap (λ (x : MemoryStore). x.orders) made.store) made.capacity
            (ap (λ (x : MemoryStore). x.outbox_events) made.store);
      tracked =
          create-IsTracked s made.made sound.tracked made.is_new
            (created_status sub env made.made made.is_made) s'
            (ap (λ (x : MemoryStore). x.orders) made.store)
            (ap (λ (x : MemoryStore). x.tracking_sessions) made.store);
    }
