-- ===== src/Application/AsyncService.antt =====
-- src/dispatch_core/application/async_service.py: `AsyncDispatchService` over any unit of work. Each
-- clock reading, `uuid4()` and fresh token of a method is an argument of it.
use dispatch_core.Shared.{
  Bool, true, false, not, ◌&&◌, ◌++◌, ◌==ℕ◌, ltb, if◌then◌else◌, String, ◌==◌, string_eq,
  is_some_of, Option, none, some, List, [],
}
use dispatch_core.Domain.Errors.{
  invalid_transition, concurrency_conflict, Conflict, Refusal, Result,
}
use dispatch_core.Domain.Events.{DomainEvent, Ambient, Instant}
use dispatch_core.Domain.Events.Equality.{same_details}
use dispatch_core.Domain.WorkOrder
use dispatch_core.Domain.WorkOrder.{WorkOrder, PoolMode, CompletionReport, EvidenceRequirements}
use dispatch_core.Domain.Tracking
use dispatch_core.Domain.Tracking.{TrackingSession, TrackingPoint, LocationSource, source_value}
use dispatch_core.Application.Service.{OrderRequest, submission, travel_start, Location, or_now}
use dispatch_core.Application.Task.{Task, Async, pure, lift, raise_if, recover, ◌>>=◌, ◌>>◌}
use dispatch_core.Application.AsyncPorts.{AsyncUnitOfWork, within}

-- `a == b` of two optional texts
abbrev pub same_option : Option String → Option String → Bool
same_option none none = true
same_option none (some b) = false
same_option (some a) b = is_some_of b a

abbrev same_flag : Bool → Bool → Bool
same_flag true b = b
same_flag false b = not b

abbrev pub same_evidence : EvidenceRequirements → EvidenceRequirements → Bool
same_evidence a b =
    (a.minimum_photos ==ℕ b.minimum_photos)
    && (same_flag a.comment_required b.comment_required
        && (same_flag a.signature_required b.signature_required
            && same_flag a.customer_code_required b.customer_code_required))

-- `_same_submission`
unfoldable pub same_submission : WorkOrder → WorkOrder → Bool
same_submission existing candidate =
    (existing.id == candidate.id)
    && ((existing.organization_id == candidate.organization_id)
        && ((existing.work_type == candidate.work_type)
            && ((existing.source == candidate.source)
                && (same_option existing.requester_id candidate.requester_id
                    && (same_details existing.details candidate.details
                        && same_evidence existing.evidence_requirements
                            candidate.evidence_requirements)))))

-- The time of observation: one before the latest point counts as the later of now and that point.
unfoldable pub observed_at : Option Instant → Instant → Option TrackingPoint → Instant
observed_at captured now none = or_now captured now
observed_at captured now (some latest) =
    if ltb (or_now captured now) latest.captured_at
    then (if ltb now latest.captured_at then latest.captured_at else now)
    else or_now captured now

abbrev pub point_of : Location → Instant → Option TrackingPoint → TrackingPoint
point_of a now latest = record {
  latitude = a.latitude;
  longitude = a.longitude;
  captured_at = observed_at a.captured_at now latest;
  ingested_at = now;
  source = a.source;
  accuracy_m = a.accuracy_m;
  source_event_id = a.source_event_id;
}

module _ {S U : Type 0} (uow : AsyncUnitOfWork S U) where
  -- `_change_order`
  unfoldable pub change_order : String → String → (WorkOrder → Result WorkOrder) → Task S WorkOrder
  unfolding WorkOrder.pull_events
  change_order organization_id order_id change = within uow (do
    found ← uow.orders.get organization_id order_id
    order ← lift (change found)
    uow.orders.save order (some found.version)
    let (events, pulled) = WorkOrder.pull_events order
    uow.outbox.add events
    uow.commit
    pure pulled)

  -- `_create_new_order`, with the identifier in the request
  unfoldable pub create_new_order : OrderRequest → String → Ambient → Task S WorkOrder
  unfolding WorkOrder.pull_events
  create_new_order a order_id env = within uow (do
    number ← uow.orders.allocate_public_number a.organization_id
    order ← lift (WorkOrder.create (submission a order_id number) none env)
    uow.orders.save order none
    let (events, pulled) = WorkOrder.pull_events order
    uow.outbox.add events
    uow.commit
    pure pulled)

  unfoldable pub create_order : OrderRequest → String → Ambient → Task S WorkOrder
  unfolding create_new_order
  create_order a uuid env = create_new_order a uuid env

  -- What `create_order_once` does after a conflict: the order that is there must be of this request.
  unfoldable pub existing_order : OrderRequest → String → Ambient → Task S WorkOrder
  existing_order a order_id env = within uow (do
    existing ← uow.orders.get a.organization_id order_id
    candidate ← lift (WorkOrder.create (submission a order_id existing.public_number) none env)
    raise_if (not (same_submission existing candidate))
        (concurrency_conflict Conflict.other_submission)
    uow.commit
    pure existing)

  unfoldable pub create_order_once : OrderRequest → String → Ambient → Ambient → Task S WorkOrder
  unfolding create_new_order existing_order
  create_order_once a order_id env env' =
      let request : OrderRequest = record a { order_id = none } in
      recover (create_new_order request order_id env) (existing_order request order_id env')

  module _ (organization_id order_id : String) where
    unfoldable pub claim_coordination : String → Ambient → Task S WorkOrder
    unfolding change_order
    claim_coordination coordinator_id env =
        change_order organization_id order_id (WorkOrder.claim_coordination coordinator_id none env)

    unfoldable pub publish_pool : PoolMode → Option String → Ambient → Task S WorkOrder
    unfolding change_order
    publish_pool mode actor_id env =
        change_order organization_id order_id (WorkOrder.publish_pool mode actor_id none env)

    unfoldable pub express_interest : String → Ambient → Task S WorkOrder
    unfolding change_order
    express_interest executor_id env =
        change_order organization_id order_id (WorkOrder.express_interest executor_id none env)

    unfoldable pub withdraw_interest : String → Ambient → Task S WorkOrder
    unfolding change_order
    withdraw_interest executor_id env =
        change_order organization_id order_id (WorkOrder.withdraw_interest executor_id none env)

    unfoldable pub claim_first : String → Ambient → Task S WorkOrder
    unfolding change_order
    claim_first executor_id env =
        change_order organization_id order_id (WorkOrder.claim_first executor_id none env)

    unfoldable pub assign_order : String → Option String → Ambient → Task S WorkOrder
    unfolding change_order
    assign_order executor_id actor_id env =
        change_order organization_id order_id (WorkOrder.assign executor_id actor_id none env)

    unfoldable pub accept_order : String → Ambient → Task S WorkOrder
    unfolding change_order
    accept_order executor_id env =
        change_order organization_id order_id (WorkOrder.accept executor_id none env)

    unfoldable pub reject_assignment : String → Ambient → Task S WorkOrder
    unfolding change_order
    reject_assignment executor_id env =
        change_order organization_id order_id (WorkOrder.reject_assignment executor_id none env)

    unfoldable pub start_work : String → Ambient → Task S WorkOrder
    unfolding change_order
    start_work executor_id env =
        change_order organization_id order_id (WorkOrder.start_work executor_id none env)

  -- `session.complete()` and `session.cancel(reason)` on the session that was found, with its save
  -- and its events.
  abbrev close_session :
      (TrackingSession → Result TrackingSession)
      → Option TrackingSession
      → Async S U (List DomainEvent)
  close_session close none = pure []
  close_session close (some session) = do
    closed ← lift (close session)
    uow.tracking.save closed (some session.version)
    pure (Tracking.pull_events closed).0

  -- The body that `complete_order` and `cancel_order` share.
  unfoldable pub close_order :
      String
      → String
      → (WorkOrder → Result WorkOrder)
      → (TrackingSession → Result TrackingSession)
      → Task S WorkOrder
  unfolding WorkOrder.pull_events Tracking.pull_events
  close_order organization_id order_id change close = within uow (do
    found ← uow.orders.get organization_id order_id
    order ← lift (change found)
    uow.orders.save order (some found.version)
    session ← uow.tracking.find_active_for_order organization_id order_id
    let (events, pulled) = WorkOrder.pull_events order
    more ← close_session close session
    uow.outbox.add (events ++ more)
    uow.commit
    pure pulled)

  unfoldable pub complete_order :
      String → String → String → CompletionReport → Ambient → Ambient → Task S WorkOrder
  unfolding close_order
  complete_order organization_id order_id executor_id report env env' =
      close_order organization_id order_id (WorkOrder.complete executor_id report none env)
        (Tracking.complete none env')

  unfoldable pub cancel_order :
      String → String → String → Option String → Ambient → Ambient → Task S WorkOrder
  unfolding close_order
  cancel_order organization_id order_id reason actor_id env env' =
      close_order organization_id order_id (WorkOrder.cancel reason actor_id none env)
        (Tracking.cancel reason none env')

  unfoldable pub start_travel :
      String
      → String
      → String
      → Option String
      → String
      → Tracking.Fresh
      → Ambient
      → Ambient
      → Task S (WorkOrder × TrackingSession)
  unfolding WorkOrder.pull_events Tracking.pull_events
  start_travel organization_id order_id executor_id session_id uuid fresh env env' = within uow (do
    found ← uow.orders.get organization_id order_id
    order ← lift (WorkOrder.start_travel executor_id none env found)
    session ← lift (
        Tracking.start (travel_start session_id uuid organization_id order.id executor_id) none
          fresh env')
    uow.orders.save order (some found.version)
    uow.tracking.save session none
    let (events, pulled) = WorkOrder.pull_events order
    let (events', pulled') = Tracking.pull_events session
    uow.outbox.add (events ++ events')
    uow.commit
    pure (pulled, pulled'))

  -- `source_event_id is not None and await has_source_event(…)`
  abbrev pub is_repeated : String → String → Option String → Async S U Bool
  is_repeated organization_id source none = pure false
  is_repeated organization_id source (some id) =
      uow.tracking.has_source_event organization_id source id

  -- What `record_location` does with a session it may add to.
  abbrev pub add_location :
      Location → Instant → Ambient → TrackingSession → Async S U TrackingSession
  add_location a now env found = do
    point ← lift (Tracking.check_point (point_of a now (Tracking.latest_point found)))
    session ← lift (Tracking.add_point point env found)
    uow.tracking.save session (some found.version)
    let (events, pulled) = Tracking.pull_events session
    uow.outbox.add events
    uow.commit
    pure pulled

  abbrev pub keep_session : TrackingSession → Async S U TrackingSession
  keep_session found = do uow.commit; pure found

  unfoldable pub record_location :
      String → String → String → Location → Instant → Ambient → Task S TrackingSession
  unfolding Tracking.pull_events Tracking.latest_point
  record_location organization_id executor_id session_id a now env = within uow (do
    found ← uow.tracking.get organization_id session_id
    raise_if (not (found.executor_id == executor_id)) (invalid_transition Refusal.foreign_session)
    repeated ← is_repeated organization_id (source_value a.source) a.source_event_id
    if repeated then keep_session found else add_location a now env found)
