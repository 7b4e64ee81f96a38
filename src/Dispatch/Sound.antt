-- ===== src/Dispatch/Sound.antt =====
-- Every request keeps the store sound, whether it succeeds or raises.
mod Orders
mod Closings
mod Sessions
pub use Orders.{IsSound}
use Orders.{call-IsSound, create-IsSound}
use Closings.{close-IsSound}
use Sessions.{travel-IsSound, locate-IsSound}
use dispatch_core.Shared.{
  ◌≡◌, ◌≢◌, refl, sym, ◌∙◌, ◌⊎◌, inl, inr, Bool, true, false, String, Option, none, some, List, [],
  ◌∷◌, ◌++◌, append-nil, arith, ap, length,
}
use dispatch_core.Domain.Errors.{Error, Result, ok, err}
use dispatch_core.Domain.Events.{Ambient, Instant}
use dispatch_core.Domain.WorkOrder
use dispatch_core.Domain.WorkOrder.{WorkOrder, WorkOrderStatus, CompletionReport, Command, apply}
use dispatch_core.Domain.Tracking
use dispatch_core.Domain.Tracking.{TrackingSession, Fresh}
use dispatch_core.Domain.Tracking.Frame.{
  IsSessionEvent, Continues, add_point-Continues, complete-Continues, cancel-Continues, start_lem,
}
use dispatch_core.Domain.Tracking.Invariant.{
  IsValid, start-IsValid, add_point-IsValid, complete-IsValid, cancel-IsValid,
}
use dispatch_core.Application.Service
use dispatch_core.Application.Service.{OrderRequest, Location, submission, travel_start, point_of}
use dispatch_core.Infrastructure.Memory.{MemoryStore, in_memory, at_most_one, matches}
use dispatch_core.Dispatch.Change.{Changes, change_order-ok}
use dispatch_core.Dispatch.Creation.{Creates, create_order-ok, numbered}
use dispatch_core.Dispatch.Closing.{Closes, Closed, none_open, one_closed, close_order-ok}
use dispatch_core.Dispatch.Travel.{Travels, start_travel-ok}
use dispatch_core.Dispatch.Locations.{Locates, record_location-ok}
use dispatch_core.Dispatch.Requests.{Request, OrderCall, serve, serve_call, ended}
use dispatch_core.Dispatch.Atomic.{command, serve_call-eq-change_order, left_by, serve-atomic}
use dispatch_core.Dispatch.Orders.{
  IsOrderly, move-IsOrderly, create-IsOrderly, quiet-IsOrderly, apply_identity, cleared,
}
use dispatch_core.Dispatch.Sessions.{IsTracked, is_moving, active_count}
use dispatch_core.Dispatch.Links.{
  move-IsTracked, stop-IsTracked, close-IsTracked, travel-IsTracked, continue-IsTracked,
  create-IsTracked,
}

cancel_stops :
    (reason : String) (actor : Option String) (env : Ambient) (o o' : WorkOrder)
    → apply (Command.cancel reason actor) none env o ≡ ok o'
    → o'.status ≢ WorkOrderStatus.en_route
unfolding apply
cancel_stops reason actor env o o' h = ground arith

complete_stops :
    (e : String) (r : CompletionReport) (env : Ambient) (o o' : WorkOrder)
    → apply (Command.complete e r) none env o ≡ ok o'
    → o'.status ≢ WorkOrderStatus.en_route
unfolding apply
complete_stops e r env o o' h = ground arith

cancel-IsSound :
    (org id reason : String) (actor : Option String) (env env' : Ambient) (s : MemoryStore)
    {order : WorkOrder} {s' : MemoryStore}
    → Service.cancel_order in_memory org id reason actor env env' s ≡ (ok order, s')
    → IsSound s
    → IsSound s'
unfolding apply Service.cancel_order
cancel-IsSound org id reason actor env env' s h =
    close-IsSound org id (Command.cancel reason actor) env (Tracking.cancel reason none env')
      (cancel_stops reason actor env)
      (λ t t' e.
        (cancel-Continues env' t reason none e, λ v. cancel-IsValid env' t reason none v e))
      s
      (close_order-ok org id (apply (Command.cancel reason actor) none env)
        (Tracking.cancel reason none env') s h)

complete-IsSound :
    (org id executor : String) (report : CompletionReport) (env env' : Ambient) (s : MemoryStore)
    {order : WorkOrder} {s' : MemoryStore}
    → Service.complete_order in_memory org id executor report env env' s ≡ (ok order, s')
    → IsSound s
    → IsSound s'
unfolding apply Service.complete_order
complete-IsSound org id executor report env env' s h =
    close-IsSound org id (Command.complete executor report) env (Tracking.complete none env')
      (complete_stops executor report env)
      (λ t t' e. (complete-Continues env' t none e, λ v. complete-IsValid env' t none v e)) s
      (close_order-ok org id (apply (Command.complete executor report) none env)
        (Tracking.complete none env') s h)

-- How a call ended, with its equation.
ended_cases :
    {A : Type 0} (r : Result A × MemoryStore)
    → ((a : A) × (r ≡ (ok a, (ended r).1))) ⊎ ((e : Error) × (ended r ≡ (err e, (ended r).1)))
ended_cases (ok a, s) = inl (a, refl)
ended_cases (err e, s) = inr (e, refl)

left_by-IsSound : (q : Request) (s : MemoryStore) → IsSound s → IsSound (left_by q s)
left_by-IsSound (Request.create_order a uuid env) s h = record {
  orderly = record {
    kept = h.orderly.kept;
    capacity = h.orderly.capacity;
    trail = h.orderly.trail;
  };
  tracked = record {
    kept = h.tracked.kept;
    distinct = h.tracked.distinct;
    linked = h.tracked.linked;
  };
}
left_by-IsSound _ s h = h

err-IsSound :
    (q : Request) (s : MemoryStore) {e : Error} {s' : MemoryStore}
    → serve q s ≡ (err e, s')
    → IsSound s
    → IsSound s'
err-IsSound q s h sound = rw (serve-atomic q s h) (left_by-IsSound q s sound)

-- Whatever is requested of the service, and whether it succeeds or raises, a sound store stays
-- sound.
pub serve-IsSound : (q : Request) (s : MemoryStore) → IsSound s → IsSound (serve q s).1
unfolding serve
serve-IsSound (Request.create_order a uuid env) s h =
    elim (ended_cases (Service.create_order in_memory a uuid env s)) [
      | inl (o, e) ↦ create-IsSound a uuid env s e h
      | inr (x, e) ↦ err-IsSound (Request.create_order a uuid env) s e h
    ]
serve-IsSound (Request.call org id c env) s h = elim (ended_cases (serve_call org id c env s)) [
  | inl (o, e) ↦ call-IsSound org id c env s e h
  | inr (x, e) ↦ err-IsSound (Request.call org id c env) s e h
]
serve-IsSound (Request.cancel_order org id reason actor env env') s h =
    elim (ended_cases (Service.cancel_order in_memory org id reason actor env env' s)) [
      | inl (o, e) ↦ cancel-IsSound org id reason actor env env' s e h
      | inr (x, e) ↦ err-IsSound (Request.cancel_order org id reason actor env env') s e h
    ]
serve-IsSound (Request.complete_order org id executor report env env') s h =
    elim (ended_cases (Service.complete_order in_memory org id executor report env env' s)) [
      | inl (o, e) ↦ complete-IsSound org id executor report env env' s e h
      | inr (x, e) ↦ err-IsSound (Request.complete_order org id executor report env env') s e h
    ]
serve-IsSound (Request.start_travel org id executor session uuid fresh env env') s h =
    elim (ended_cases
      (Service.start_travel in_memory org id executor session uuid fresh env env' s)) [
        | inl (o, e) ↦ travel-IsSound org id executor session uuid fresh env env' s e h
        | inr (x, e) ↦
            err-IsSound (Request.start_travel org id executor session uuid fresh env env') s e h
      ]
serve-IsSound (Request.record_location org executor session a now env) s h =
    elim (ended_cases (Service.record_location in_memory org executor session a now env s)) [
      | inl (o, e) ↦ locate-IsSound org executor session a now env s e h
      | inr (x, e) ↦ err-IsSound (Request.record_location org executor session a now env) s e h
    ]
