-- ===== src/Application/Service.antt =====
-- src/dispatch_core/application/service.py: `DispatchService` over any unit of work. Each clock
-- reading, `uuid4()` and fresh token of a method is an argument of it.
use dispatch_core.Shared.{
  ◌++◌, ltb, not, if◌then◌else◌, String, ◌==◌, string_eq, Option, none, some, List,
}
use dispatch_core.Shared.Dict.{Dict}
use dispatch_core.Domain.Errors.{invalid_transition, Refusal, Result}
use dispatch_core.Domain.Events.{DomainEvent, Ambient, Instant, Value}
use dispatch_core.Domain.Floats.{Float}
use dispatch_core.Domain.WorkOrder
use dispatch_core.Domain.WorkOrder.{WorkOrder, PoolMode, CompletionReport, EvidenceRequirements}
use dispatch_core.Domain.Tracking
use dispatch_core.Domain.Tracking.{TrackingSession, TrackingPoint, LocationSource}
use dispatch_core.Application.Exec.{Exec, pure, lift, raise_if, ◌>>=◌, ◌>>◌}
use dispatch_core.Application.Ports.{UnitOfWork, within}

-- The arguments of `create_order`, with `str(uuid4())` put in where no id is given.
pub record OrderRequest : Type 0 where
  pub organization_id : String
  pub work_type : String
  pub source : String
  pub details : Dict String Value
  pub requester_id : Option String
  pub evidence_requirements : Option EvidenceRequirements
  pub order_id : Option String

-- `given or str(uuid4())`
abbrev pub or_uuid : Option String → String → String
or_uuid none uuid = uuid
or_uuid (some given) uuid = if given == "" then uuid else given

abbrev pub submission : OrderRequest → String → String → WorkOrder.Submission
submission a uuid number = record {
  order_id = or_uuid a.order_id uuid;
  public_number = number;
  organization_id = a.organization_id;
  work_type = a.work_type;
  source = a.source;
  details = a.details;
  requester_id = a.requester_id;
  evidence_requirements = a.evidence_requirements;
}

abbrev pub travel_start : Option String → String → String → String → String → Tracking.Start
travel_start session_id uuid organization_id work_order_id executor_id = record {
  session_id = or_uuid session_id uuid;
  organization_id = organization_id;
  work_order_id = work_order_id;
  executor_id = executor_id;
  public_token = none;
  location_token = none;
}

-- The arguments of `record_location` beside the session's.
pub record Location : Type 0 where
  pub latitude : Float
  pub longitude : Float
  pub source : LocationSource
  pub captured_at : Option Instant
  pub accuracy_m : Option Float
  pub source_event_id : Option String

abbrev pub or_now : Option Instant → Instant → Instant
or_now none now = now
or_now (some t) now = t

-- The time of observation: one before the latest point counts as now.
unfoldable pub observed_at : Option Instant → Instant → Option TrackingPoint → Instant
observed_at captured now none = or_now captured now
observed_at captured now (some latest) =
    if ltb (or_now captured now) latest.captured_at then now else or_now captured now

abbrev pub point_of : Location → Instant → Option TrackingPoint → TrackingPoint
point_of a now latest = record {
  latitude = a.latitude;
  longitude = a.longitude;
  captured_at = observed_at a.captured_at now latest;
  ingested_at = now;
  source = a.source;
  accuracy_m = a.accuracy_m;
  source_event_id = a.source_event_id;
}

module _ {S U : Type 0} (uow : UnitOfWork S U) where
  -- `_change_order`
  unfoldable pub change_order : String → String → (WorkOrder → Result WorkOrder) → Exec S WorkOrder
  unfolding WorkOrder.pull_events
  change_order organization_id order_id change = within uow (do
    found ← uow.orders.get organization_id order_id
    order ← lift (change found)
    uow.orders.save order (some found.version)
    let (events, pulled) = WorkOrder.pull_events order
    uow.outbox.add events
    uow.commit
    pure pulled)

  unfoldable pub create_order : OrderRequest → String → Ambient → Exec S WorkOrder
  unfolding WorkOrder.pull_events
  create_order a uuid env = within uow (do
    number ← uow.orders.allocate_public_number a.organization_id
    order ← lift (WorkOrder.create (submission a uuid number) none env)
    uow.orders.save order none
    let (events, pulled) = WorkOrder.pull_events order
    uow.outbox.add events
    uow.commit
    pure pulled)

  module _ (organization_id order_id : String) where
    unfoldable pub claim_coordination : String → Ambient → Exec S WorkOrder
    unfolding change_order
    claim_coordination coordinator_id env =
        change_order organization_id order_id (WorkOrder.claim_coordination coordinator_id none env)

    unfoldable pub publish_pool : PoolMode → Option String → Ambient → Exec S WorkOrder
    unfolding change_order
    publish_pool mode actor_id env =
        change_order organization_id order_id (WorkOrder.publish_pool mode actor_id none env)

    unfoldable pub express_interest : String → Ambient → Exec S WorkOrder
    unfolding change_order
    express_interest executor_id env =
        change_order organization_id order_id (WorkOrder.express_interest executor_id none env)

    unfoldable pub withdraw_interest : String → Ambient → Exec S WorkOrder
    unfolding change_order
    withdraw_interest executor_id env =
        change_order organization_id order_id (WorkOrder.withdraw_interest executor_id none env)

    unfoldable pub claim_first : String → Ambient → Exec S WorkOrder
    unfolding change_order
    claim_first executor_id env =
        change_order organization_id order_id (WorkOrder.claim_first executor_id none env)

    unfoldable pub assign_order : String → Option String → Ambient → Exec S WorkOrder
    unfolding change_order
    assign_order executor_id actor_id env =
        change_order organization_id order_id (WorkOrder.assign executor_id actor_id none env)

    unfoldable pub accept_order : String → Ambient → Exec S WorkOrder
    unfolding change_order
    accept_order executor_id env =
        change_order organization_id order_id (WorkOrder.accept executor_id none env)

    unfoldable pub reject_assignment : String → Ambient → Exec S WorkOrder
    unfolding change_order
    reject_assignment executor_id env =
        change_order organization_id order_id (WorkOrder.reject_assignment executor_id none env)

    unfoldable pub start_work : String → Ambient → Exec S WorkOrder
    unfolding change_order
    start_work executor_id env =
        change_order organization_id order_id (WorkOrder.start_work executor_id none env)

  -- `session.complete()` and `session.cancel(reason)` on the session that was found, with its save
  -- and its events.
  abbrev close_session :
      (TrackingSession → Result TrackingSession)
      → Option TrackingSession
      → Exec U (List DomainEvent)
  close_session close none = pure List.[]
  close_session close (some session) = do
    closed ← lift (close session)
    uow.tracking.save closed (some session.version)
    pure (Tracking.pull_events closed).0

  -- The body that `cancel_order` and `complete_order` share: change the order, and close the
  -- session that is active for it.
  unfoldable pub close_order :
      String
      → String
      → (WorkOrder → Result WorkOrder)
      → (TrackingSession → Result TrackingSession)
      → Exec S WorkOrder
  unfolding WorkOrder.pull_events Tracking.pull_events
  close_order organization_id order_id change close = within uow (do
    found ← uow.orders.get organization_id order_id
    order ← lift (change found)
    uow.orders.save order (some found.version)
    session ← uow.tracking.find_active_for_order organization_id order_id
    let (events, pulled) = WorkOrder.pull_events order
    more ← close_session close session
    uow.outbox.add (events ++ more)
    uow.commit
    pure pulled)

  unfoldable pub cancel_order :
      String → String → String → Option String → Ambient → Ambient → Exec S WorkOrder
  unfolding close_order
  cancel_order organization_id order_id reason actor_id env env' =
      close_order organization_id order_id (WorkOrder.cancel reason actor_id none env)
        (Tracking.cancel reason none env')

  unfoldable pub complete_order :
      String → String → String → CompletionReport → Ambient → Ambient → Exec S WorkOrder
  unfolding close_order
  complete_order organization_id order_id executor_id report env env' =
      close_order organization_id order_id (WorkOrder.complete executor_id report none env)
        (Tracking.complete none env')

  unfoldable pub start_travel :
      String
      → String
      → String
      → Option String
      → String
      → Tracking.Fresh
      → Ambient
      → Ambient
      → Exec S (WorkOrder × TrackingSession)
  unfolding WorkOrder.pull_events Tracking.pull_events
  start_travel organization_id order_id executor_id session_id uuid fresh env env' = within uow (do
    found ← uow.orders.get organization_id order_id
    order ← lift (WorkOrder.start_travel executor_id none env found)
    session ← lift (
        Tracking.start (travel_start session_id uuid organization_id order.id executor_id) none
          fresh env')
    uow.orders.save order (some found.version)
    uow.tracking.save session none
    let (events, pulled) = WorkOrder.pull_events order
    let (events', pulled') = Tracking.pull_events session
    uow.outbox.add (events ++ events')
    uow.commit
    pure (pulled, pulled'))

  unfoldable pub record_location :
      String → String → String → Location → Instant → Ambient → Exec S TrackingSession
  unfolding Tracking.pull_events Tracking.latest_point
  record_location organization_id executor_id session_id a now env = within uow (do
    found ← uow.tracking.get organization_id session_id
    raise_if (not (found.executor_id == executor_id)) (invalid_transition Refusal.foreign_session)
    point ← lift (Tracking.check_point (point_of a now (Tracking.latest_point found)))
    session ← lift (Tracking.add_point point env found)
    uow.tracking.save session (some found.version)
    let (events, pulled) = Tracking.pull_events session
    uow.outbox.add events
    uow.commit
    pure pulled)
