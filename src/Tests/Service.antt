-- ===== src/Tests/Service.antt =====
-- The service over the in-memory units.
use dispatch_core.Shared.{
  ◌≡◌, ◌↔◌, ◌<◌, refl, true, none, some, [], ◌∷◌, arith, is_some_of, chr, strip,
}
use dispatch_core.Domain.Errors.{err, ok, invalid_transition, Refusal}
use dispatch_core.Domain.WorkOrder
use dispatch_core.Domain.WorkOrder.{WorkOrder, WorkOrderStatus, apply, Command}
use dispatch_core.Application.Service
use dispatch_core.Application.Service.{point_of, observed_at}
use dispatch_core.Domain.Tracking.{TrackingSession, is_before}
use dispatch_core.Shared.Dict.{get, put}
use dispatch_core.Domain.Floats.{is_within, units}
use dispatch_core.Domain.OrderNumbers.{format_order_number}
use dispatch_core.Domain.OrderNumbers.Digits.{pad3}
use dispatch_core.Domain.Tracking
use dispatch_core.Infrastructure.Memory.{
  MemoryStore, in_memory, check_capacity, allocate_public_number, get_order, save_order, add_events,
  commit, check_versions, check_collection_versions, check_executor_capacity, occupied_key, written,
  write_all, merge, find_active_for_order, save_session, get_session,
}
use dispatch_core.Dispatch.Change.{Changes, change_order-ok}
use dispatch_core.Dispatch.Creation.{Creates, create_order-ok}
use dispatch_core.Dispatch.Closing.{Closes, close_order-ok}
use dispatch_core.Dispatch.Travel.{Travels, start_travel-ok}
use dispatch_core.Dispatch.Locations.{Locates, record_location-ok}
use dispatch_core.Dispatch.Requests.{Request, OrderCall, serve, serve_call}
use dispatch_core.Dispatch.Atomic.{serve-atomic, left_by}
use dispatch_core.Dispatch.Sound.{IsSound, serve-IsSound}
use dispatch_core.Dispatch.Orders.{versions_of, upto}
use dispatch_core.Infrastructure.Memory.{matches}
use dispatch_core.Dispatch.Clock.{observed_at-is_before}
use dispatch_core.Tests.Data.{
  env, request, empty_store, here, fresh, point_at, report, order_in, store_with, session,
}

abbrev pooled : WorkOrder
pooled = order_in WorkOrderStatus.pool_open (some WorkOrder.PoolMode.curated) none

abbrev taken : WorkOrder
taken = order_in WorkOrderStatus.assigned none (some "ann")

abbrev accepted : WorkOrder
accepted = order_in WorkOrderStatus.accepted none (some "ann")

abbrev working : WorkOrder
working = order_in WorkOrderStatus.in_progress none (some "ann")

empty_store-IsSound : IsSound empty_store
unfolding check_capacity versions_of upto matches get
empty_store-IsSound = record {
  orderly = record { kept = λ id o q. absurd (ground arith); capacity = refl; trail = λ id. refl };
  tracked = record { kept = λ k t q. absurd (ground arith); distinct = tt; linked = λ x j. tt };
}

-- A day's work on one order.
abbrev after_create : MemoryStore
after_create = (serve (Request.create_order request "u" env) empty_store).1

after_create-IsSound : IsSound after_create
after_create-IsSound =
    serve-IsSound (Request.create_order request "u" env) empty_store empty_store-IsSound

abbrev after_assign : MemoryStore
after_assign =
    (serve (Request.call "org" "w-1" (OrderCall.assign_order "ann" none) env) after_create).1

serve-IsSound_example : IsSound after_assign
serve-IsSound_example =
    serve-IsSound (Request.call "org" "w-1" (OrderCall.assign_order "ann" none) env) after_create
      after_create-IsSound

-- Nobody has assigned the order, so nobody can accept it.
accept_refused :
    serve (Request.call "org" "w-1" (OrderCall.accept_order "ann") env) (store_with pooled)
    ≡ (err (invalid_transition Refusal.wrong_status), store_with pooled)
unfolding WorkOrder.accept serve serve_call Service.accept_order get_order get
accept_refused = refl

serve-atomic_example :
    store_with pooled
    ≡ left_by (Request.call "org" "w-1" (OrderCall.accept_order "ann") env) (store_with pooled)
serve-atomic_example =
    serve-atomic (Request.call "org" "w-1" (OrderCall.accept_order "ann") env) (store_with pooled)
      {e = invalid_transition Refusal.wrong_status} {s' = store_with pooled} accept_refused

create_runs :
    (order : WorkOrder) × (s' : MemoryStore) × (Service.create_order in_memory request "u" env
        empty_store
      ≡ (ok order, s'))
unfolding Service.create_order allocate_public_number format_order_number pad3 chr save_order
    add_events commit check_versions check_collection_versions check_executor_capacity
    check_capacity occupied_key written write_all merge put get WorkOrder.create
create_runs = (_, _, refl)

create_order-ok_example : Creates request "u" env empty_store create_runs.0 create_runs.1
create_order-ok_example =
    create_order-ok request "u" env empty_store {order = create_runs.0} {s' = create_runs.1}
      create_runs.2

change_runs :
    (order : WorkOrder) × (s' : MemoryStore) × (Service.change_order in_memory "org" "w-1"
        (WorkOrder.accept "ann" none env)
        (store_with taken)
      ≡ (ok order, s'))
unfolding Service.change_order get_order save_order add_events commit check_versions
    check_collection_versions check_executor_capacity check_capacity occupied_key written write_all
    merge put get WorkOrder.accept is_some_of
change_runs = (_, _, refl)

change_order-ok_example :
    Changes "org" "w-1"
      (WorkOrder.accept "ann" none env)
      (store_with taken)
      change_runs.0
      change_runs.1
change_order-ok_example =
    change_order-ok "org" "w-1" (WorkOrder.accept "ann" none env) (store_with taken)
      {order = change_runs.0} {s' = change_runs.1} change_runs.2

-- An order in progress with its session.
abbrev working_store : MemoryStore
working_store = record (store_with working) { tracking_sessions = (("org", "t-1"), session) ∷ [] }

close_runs :
    (order : WorkOrder) × (s' : MemoryStore) × (Service.close_order in_memory "org" "w-1"
        (WorkOrder.complete "ann" report none env)
        (Tracking.complete none env)
        working_store
      ≡ (ok order, s'))
unfolding Service.close_order get_order save_order find_active_for_order matches save_session
    add_events commit check_versions check_collection_versions check_executor_capacity
    check_capacity occupied_key written write_all merge put get WorkOrder.complete
    WorkOrder.validate_report WorkOrder.has_text is_some_of strip Tracking.complete
close_runs = (_, _, refl)

close_order-ok_example :
    Closes "org" "w-1"
      (WorkOrder.complete "ann" report none env)
      (Tracking.complete none env)
      working_store
      close_runs.0
      close_runs.1
close_order-ok_example =
    close_order-ok "org" "w-1" (WorkOrder.complete "ann" report none env)
      (Tracking.complete none env) working_store {order = close_runs.0} {s' = close_runs.1}
      close_runs.2

travel_runs :
    (answer : WorkOrder × TrackingSession) × (s' : MemoryStore) × (Service.start_travel in_memory
        "org" "w-1" "ann" none "t-1" fresh env env
        (store_with accepted)
      ≡ (ok answer, s'))
unfolding Service.start_travel get_order save_order save_session add_events commit check_versions
    check_collection_versions check_executor_capacity check_capacity occupied_key written write_all
    merge put get WorkOrder.start_travel is_some_of strip Tracking.start Tracking.is_weak
travel_runs = (_, _, refl)

start_travel-ok_example :
    Travels "org" "w-1" "ann" none "t-1" fresh env env
      (store_with accepted)
      travel_runs.0
      travel_runs.1
start_travel-ok_example =
    start_travel-ok "org" "w-1" "ann" none "t-1" fresh env env (store_with accepted)
      {answer = travel_runs.0} {s' = travel_runs.1} travel_runs.2

locate_runs :
    (answer : TrackingSession) × (s' : MemoryStore) × (Service.record_location in_memory "org" "ann"
        "t-1" here 130 env working_store
      ≡ (ok answer, s'))
unfolding Service.record_location get_session save_session add_events commit check_versions
    check_collection_versions check_executor_capacity check_capacity occupied_key written write_all
    merge put get is_some_of strip Tracking.check_point Tracking.add_point Tracking.has_event
    is_within units observed_at
locate_runs = (_, _, refl)

record_location-ok_example :
    Locates "org" "ann" "t-1" here 130 env working_store locate_runs.0 locate_runs.1
record_location-ok_example =
    record_location-ok "org" "ann" "t-1" here 130 env working_store {session = locate_runs.0}
      {s' = locate_runs.1} locate_runs.2

-- The latest point is later than the present, and so is what the device says.
observed_at-is_before_example :
    (is_before (point_of here 50 (some (point_at "e-1"))) (some (point_at "e-1")) ≡ true)
    ↔ ((50 < 95) × (120 < 95))
observed_at-is_before_example = observed_at-is_before here 50 (point_at "e-1")
