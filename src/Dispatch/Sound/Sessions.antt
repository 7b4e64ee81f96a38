-- ===== src/Dispatch/Sound/Sessions.antt =====
-- Setting out and recording locations keeps the store sound.
use dispatch_core.Shared.{◌≡◌, sym, ◌∙◌, true, false, String, Option, none, arith, ap}
use dispatch_core.Domain.Errors.{ok}
use dispatch_core.Domain.Events.{Ambient, Instant}
use dispatch_core.Domain.WorkOrder
use dispatch_core.Domain.WorkOrder.{WorkOrder, WorkOrderStatus, CompletionReport, Command, apply}
use dispatch_core.Domain.Tracking
use dispatch_core.Domain.Tracking.{TrackingSession, Fresh}
use dispatch_core.Domain.Tracking.Frame.{add_point-Continues, start_lem}
use dispatch_core.Domain.Tracking.Invariant.{start-IsValid, add_point-IsValid}
use dispatch_core.Application.Service
use dispatch_core.Application.Service.{OrderRequest, Location, submission, travel_start, point_of}
use dispatch_core.Infrastructure.Memory.{MemoryStore, in_memory}
use dispatch_core.Dispatch.Travel.{Travels, start_travel-ok}
use dispatch_core.Dispatch.Locations.{Locates, record_location-ok}
use dispatch_core.Dispatch.Orders.{move-IsOrderly, quiet-IsOrderly, apply_identity}
use dispatch_core.Dispatch.Sound.Orders.{IsSound}
use dispatch_core.Dispatch.Sessions.{is_moving}
use dispatch_core.Dispatch.Links.{travel-IsTracked, continue-IsTracked}

travel_status :
    (e : String) (env : Ambient) (o o' : WorkOrder)
    → WorkOrder.start_travel e none env o ≡ ok o'
    → (is_moving o.status ≡ false) × (is_moving o'.status ≡ true)
unfolding WorkOrder.start_travel
travel_status e env o o' h = (ground arith, ground arith)

pub travel-IsSound :
    (org id executor : String) (session : Option String) (uuid : String) (fresh : Fresh)
    (env env' : Ambient) (s : MemoryStore) {answer : WorkOrder × TrackingSession} {s' : MemoryStore}
    → Service.start_travel in_memory org id executor session uuid fresh env env' s ≡ (ok answer, s')
    → IsSound s
    → IsSound s'
unfolding apply
travel-IsSound org id executor session uuid fresh env env' s {answer} {s'} h sound =
    let made : Travels org id executor session uuid fresh env env' s answer s' =
      start_travel-ok org id executor session uuid fresh env env' s h in
    let c = Command.start_travel executor in
    let (same_id, same_org) = apply_identity c env made.found made.changed made.is_changed in
    let kept = sound.orderly.kept id made.found made.is_stored in
    let (still, moving) = travel_status executor env made.found made.changed made.is_changed in
    let start = travel_start session uuid org made.changed.id executor in
    let (sid, sorg, work, exec, live, sent) = start_lem start none fresh env' made.is_started in
    let orders = ap (λ (x : MemoryStore). x.orders) made.store in
    record {
      orderly =
          move-IsOrderly c env id made.found made.changed made.session.events s s' sound.orderly
            made.is_stored made.is_changed sent orders made.capacity
            (ap (λ (x : MemoryStore). x.outbox_events) made.store);
      tracked =
          travel-IsTracked id made.found made.changed s sound.tracked made.is_stored
            (same_id ∙ kept.key) same_org made.session still moving made.is_new
            (sorg ∙ sym made.is_owned) (work ∙ (same_id ∙ kept.key)) live
            (start-IsValid start none fresh env' made.is_started) s' orders
            (ap (λ (x : MemoryStore). x.tracking_sessions) made.store);
    }

pub locate-IsSound :
    (org executor session : String) (a : Location) (now : Instant) (env : Ambient) (s : MemoryStore)
    {answer : TrackingSession} {s' : MemoryStore}
    → Service.record_location in_memory org executor session a now env s ≡ (ok answer, s')
    → IsSound s
    → IsSound s'
locate-IsSound org executor session a now env s {answer} {s'} h sound =
    let made : Locates org executor session a now env s answer s' =
      record_location-ok org executor session a now env s h in
    let kept = sound.tracked.kept (org, session) made.old made.is_stored in
    let point = point_of a now (Tracking.latest_point made.old) in
    let same = add_point-Continues env made.old point made.is_added in
    record {
      orderly =
          quiet-IsOrderly s s' made.new.events sound.orderly (same.1.events kept.pulled)
            (ap (λ (x : MemoryStore). x.orders) made.store)
            (ap (λ (x : MemoryStore). x.outbox_events) made.store);
      tracked =
          continue-IsTracked s made.old made.new (org, session) sound.tracked made.is_stored same
            (λ v. add_point-IsValid env made.old point v made.is_added) s'
            (ap (λ (x : MemoryStore). x.orders) made.store)
            (ap (λ (x : MemoryStore). x.tracking_sessions) made.store);
    }
