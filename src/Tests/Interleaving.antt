-- ===== src/Tests/Interleaving.antt =====
-- Two executors at work on one order at once, and a submission that is sent twice.
use dispatch_core.Shared.{
  ◌≡◌, ◌≢◌, ◌⊎◌, refl, true, none, some, List, [], ◌∷◌, arith, map, chr, string_eq, pair_eq,
}
use dispatch_core.Shared.Dict.{get, put}
use dispatch_core.Domain.Errors.{Result, ok, err, value_error, Invalid}
use dispatch_core.Domain.Events.Equality.{same_details}
use dispatch_core.Domain.OrderNumbers.{format_order_number}
use dispatch_core.Domain.OrderNumbers.Digits.{pad3}
use dispatch_core.Domain.WorkOrder
use dispatch_core.Domain.WorkOrder.{WorkOrder, WorkOrderStatus, Command, apply}
use dispatch_core.Domain.Tracking
use dispatch_core.Domain.Tracking.{is_before}
use dispatch_core.Application.AsyncService
use dispatch_core.Application.AsyncService.{point_of}
use dispatch_core.Application.Task.{Task, alone}
use dispatch_core.Dispatch.Requests.{OrderCall}
use dispatch_core.Infrastructure.AsyncMemory.{
  AsyncMemoryStore, async_memory, numbered, get_order, save_order, add_events, commit,
  check_versions, check_capacity, check_executor_capacity, occupied_pair, written,
  allocate_public_number,
}
use dispatch_core.Infrastructure.Memory.{check_collection_versions, write_all}
use dispatch_core.Interleaving.Growth.{
  IsFiled, Follows, Follows-refl, Follows-IsFiled, put-Grown, order_version, IsOrderAt,
}
use dispatch_core.Interleaving.Steady.{Schedule, stop, turn, Turn}
use dispatch_core.Interleaving.Trace.{Moment, Runs}
use dispatch_core.Interleaving.Requests.{AsyncRequest, perform, perform_call, requests-Follows}
use dispatch_core.Interleaving.Atomic.{IsAtomic, IsRefused, command-Atomic}
use dispatch_core.Interleaving.Fitting.{apply-Moves}
use dispatch_core.Interleaving.Calls.{change_order-Steady}
use dispatch_core.Interleaving.Retry.{create_order_once-repeat}
use dispatch_core.Interleaving.Clock.{add_point-point_of}
use dispatch_core.Tests.Data.{env, request, order_in, session, here}

abbrev empty : AsyncMemoryStore
empty = record {
  orders = [];
  tracking_sessions = [];
  outbox_events = [];
  order_number_counters = [];
}

abbrev pooled : WorkOrder
pooled = order_in WorkOrderStatus.pool_open (some WorkOrder.PoolMode.first_claim) none

abbrev shared : AsyncMemoryStore
shared = record {
  orders = (("org", "w-1"), pooled) ∷ [];
  tracking_sessions = [];
  outbox_events = [];
  order_number_counters = [];
}

empty-IsFiled : IsFiled empty
unfolding get
empty-IsFiled = record {
  orders = record { all = λ k a q. absurd (ground arith); distinct = tt };
  sessions = record { all = λ k a q. absurd (ground arith); distinct = tt };
}

shared-IsFiled : IsFiled shared
unfolding get put
shared-IsFiled = record {
  orders =
      (put-Grown order_version IsOrderAt [] ("org", "w-1") pooled empty-IsFiled.orders (refl, refl)
        (λ a q. absurd (ground arith))).filed;
  sessions = empty-IsFiled.sessions;
}

abbrev rivals : List AsyncRequest
rivals =
    AsyncRequest.call "org" "w-1" (OrderCall.claim_first "ann") env
    ∷ AsyncRequest.call "org" "w-1" (OrderCall.claim_first "bob") env
    ∷ []

sent :
    (o : WorkOrder) × (s : AsyncMemoryStore) × (alone
        (AsyncService.create_order_once async_memory request "w-7" env env)
        empty
      ≡ (ok o, s))
unfolding AsyncService.create_order_once allocate_public_number format_order_number pad3 chr
    save_order add_events commit WorkOrder.create get put alone check_versions
    check_collection_versions check_executor_capacity check_capacity occupied_pair write_all written
sent = (_, _, refl)

details_equal : same_details request.details request.details ≡ true
unfolding same_details
details_equal = refl

create_order_once-repeat_example :
    alone (AsyncService.create_order_once async_memory request "w-7" env env) sent.1
    ≡ (ok sent.0, numbered "org" sent.1)
create_order_once-repeat_example =
    create_order_once-repeat request "w-7" env env env env empty {o = sent.0} {s' = sent.1}
      details_equal sent.2

-- Both read the order before either has claimed it.
raced :
    (ps : List (Task AsyncMemoryStore (Unit {0}))) × (t : AsyncMemoryStore) × Schedule
      (map perform rivals)
      shared
      ps
      t
unfolding perform perform_call AsyncService.claim_first AsyncService.change_order get_order
    save_order add_events commit get put WorkOrder.claim_first
raced = (
  _,
  _,
  turn (Turn.first refl refl) (
      turn (Turn.later (Turn.first refl refl))
        (turn (Turn.first refl refl) (turn (Turn.later (Turn.first refl refl)) stop))),
)

requests-Follows_example : Follows shared raced.1
requests-Follows_example = requests-Follows rivals shared-IsFiled raced.2

command_ran :
    (ms : List Moment) × (r : Result WorkOrder) × (t : AsyncMemoryStore) × Runs
      (AsyncService.change_order async_memory "org" "w-1"
        (apply (Command.claim_first "ann") none env))
      shared
      ms
      r
      t
unfolding AsyncService.change_order get_order save_order add_events commit get put apply
    check_versions check_collection_versions check_executor_capacity check_capacity occupied_pair
    write_all written
command_ran = (
  (shared, shared) ∷ (shared, _) ∷ [],
  _,
  _,
  (
    Follows-refl shared shared-IsFiled,
    refl,
    (
      Follows-refl shared shared-IsFiled,
      refl,
      (
        refl,
        Follows-refl _ (
            Follows-IsFiled shared _ (
              ((change_order-Steady "org" "w-1" _ (apply-Moves (Command.claim_first "ann") env)
                  shared shared (Follows-refl shared shared-IsFiled)).1
                shared (Follows-refl shared shared-IsFiled)).0)),
      ),
    ),
  ),
)

add_point-point_of_example :
    Tracking.add_point (point_of here 5 (Tracking.latest_point session)) env session
    ≢ err (value_error Invalid.points_out_of_order)
add_point-point_of_example = add_point-point_of here 5 env session

command-Atomic_example :
    IsAtomic "org" "w-1" (apply (Command.claim_first "ann") none env) command_ran.0 command_ran.1
    ⊎ IsRefused "org" "w-1" command_ran.0 command_ran.1
command-Atomic_example =
    command-Atomic "org" "w-1" (Command.claim_first "ann") env shared command_ran.0 command_ran.1
      command_ran.2 command_ran.3
