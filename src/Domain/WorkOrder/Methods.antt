-- ===== src/Domain/WorkOrder/Methods.antt =====
-- The methods of `WorkOrder` that change it, in the order of the file.
use dispatch_core.Shared.{
  ◌+◌, Bool, false, if◌then◌else◌, String, is_empty, strip, ◌==◌, string_eq, is_some_of, Option,
  none, some, List, [], ◌∷◌, ◌++◌, length, ◌||◌,
}
use dispatch_core.Shared.Dict.{Dict, get, put}
use dispatch_core.Domain.Errors.{
  value_error, invalid_transition, Invalid, Refusal, Result, ok, err, raise_if, ◌>>=◌, ◌>>◌,
}
use dispatch_core.Domain.Events.{
  DomainEvent, Ambient, Instant, Payload, Value, text, number, optional, or_clock, new_event,
}
use dispatch_core.Domain.WorkOrder.Data.{
  WorkOrder, WorkOrderStatus, PoolMode, PoolResponse, PoolResponseStatus, CompletionReport,
  EvidenceRequirements, no_evidence, mode_value, is_interested, is_mode,
}
use dispatch_core.Domain.WorkOrder.Guards.{
  post_init, require_not_terminal, require_coordinator_if_present, require_assignee,
  require_executor_id, require_status, require_pool_mode, validate_report,
}

-- `_record`
unfoldable pub record_event : String → Payload → Option Instant → Ambient → WorkOrder → WorkOrder
unfolding new_event
record_event name payload now env o =
    let instant : Instant = or_clock now env in
    let event : DomainEvent =
      new_event o.organization_id "work_order" o.id (o.version + 1) name payload (some instant)
        env in
    record o { version = o.version + 1; updated_at = instant; events = o.events ++ event ∷ [] }

-- The arguments of `WorkOrder.create`.
pub record Submission : Type 0 where
  pub order_id : String
  pub public_number : String
  pub organization_id : String
  pub work_type : String
  pub source : String
  pub details : Dict String Value
  pub requester_id : Option String
  pub evidence_requirements : Option EvidenceRequirements

abbrev or_no_evidence : Option EvidenceRequirements → EvidenceRequirements
or_no_evidence none = no_evidence
or_no_evidence (some e) = e

abbrev initial : Submission → Instant → WorkOrder
initial s instant = record {
  id = s.order_id;
  public_number = s.public_number;
  organization_id = s.organization_id;
  work_type = s.work_type;
  source = s.source;
  details = s.details;
  requester_id = s.requester_id;
  coordinator_id = none;
  evidence_requirements = or_no_evidence s.evidence_requirements;
  status = WorkOrderStatus.submitted;
  pool_mode = none;
  assignee_id = none;
  pool_responses = [];
  report = none;
  version = 0;
  created_at = instant;
  updated_at = instant;
  events = [];
}

unfoldable pub create : Submission → Option Instant → Ambient → Result WorkOrder
unfolding post_init record_event
create s now env = do
  let instant = or_clock now env
  order ← post_init (initial s instant)
  ok (
      record_event "work_order.submitted"
        (("public_number", text s.public_number)
          ∷ ("source", text s.source)
          ∷ ("requester_id", optional s.requester_id)
          ∷ [])
        (some instant) env order)

unfoldable pub claim_coordination : String → Option Instant → Ambient → WorkOrder → Result WorkOrder
unfolding require_not_terminal record_event
claim_coordination coordinator_id now env o = do
  require_not_terminal o
  raise_if (is_empty coordinator_id) (value_error Invalid.coordinator_required)
  if is_some_of o.coordinator_id coordinator_id then ok o else elim o.coordinator_id [
    | some _ ↦ err (invalid_transition Refusal.other_coordinator)
    | none ↦ ok (
        record_event "work_order.coordination_claimed"
          (("coordinator_id", text coordinator_id) ∷ []) now env
          (record o { coordinator_id = some coordinator_id }))
  ]

unfoldable pub publish_pool :
    PoolMode → Option String → Option Instant → Ambient → WorkOrder → Result WorkOrder
unfolding require_status require_coordinator_if_present record_event
publish_pool mode actor_id now env o = do
  require_status (WorkOrderStatus.submitted ∷ []) o
  require_coordinator_if_present actor_id o
  ok (
      record_event "work_order.pool_published"
        (("mode", text (mode_value mode)) ∷ ("actor_id", optional actor_id) ∷ []) now env
        (record o { pool_mode = some mode; status = WorkOrderStatus.pool_open }))

-- `PoolResponse(executor_id=…, status=…, responded_at=instant)` under its executor
abbrev pub respond : String → PoolResponseStatus → Instant → WorkOrder → WorkOrder
respond executor_id status instant o = record o {
  pool_responses =
      put o.pool_responses executor_id
        (record { executor_id = executor_id; status = status; responded_at = instant });
}

-- `current and current.status is INTERESTED`
abbrev pub has_interest : Option PoolResponse → Bool
has_interest none = false
has_interest (some r) = is_interested r.status

unfoldable pub express_interest : String → Option Instant → Ambient → WorkOrder → Result WorkOrder
unfolding require_pool_mode require_executor_id record_event
express_interest executor_id now env o = do
  require_pool_mode PoolMode.curated o
  require_executor_id executor_id
  let instant = or_clock now env
  if has_interest (get o.pool_responses executor_id)
      then ok o
      else ok (
          record_event "work_order.pool_interest_recorded" (("executor_id", text executor_id) ∷ [])
            (some instant) env (respond executor_id PoolResponseStatus.interested instant o))

unfoldable pub withdraw_interest : String → Option Instant → Ambient → WorkOrder → Result WorkOrder
unfolding require_pool_mode record_event
withdraw_interest executor_id now env o = do
  require_pool_mode PoolMode.curated o
  let instant = or_clock now env
  if has_interest (get o.pool_responses executor_id)
      then ok (
          record_event "work_order.pool_interest_withdrawn" (("executor_id", text executor_id) ∷ [])
            (some instant) env (respond executor_id PoolResponseStatus.withdrawn instant o))
      else err (invalid_transition Refusal.no_interest)

unfoldable pub claim_first : String → Option Instant → Ambient → WorkOrder → Result WorkOrder
unfolding require_pool_mode require_executor_id record_event
claim_first executor_id now env o = do
  require_pool_mode PoolMode.first_claim o
  require_executor_id executor_id
  let instant = or_clock now env
  ok (
      record_event "work_order.first_claim_won" (("executor_id", text executor_id) ∷ [])
        (some instant) env
        (respond executor_id PoolResponseStatus.selected instant
          (record o { assignee_id = some executor_id; status = WorkOrderStatus.assigned })))

-- One round of the loop of `_resolve_curated_responses`. A key is written in place, so writing
-- during the walk over the snapshot is a walk over the entries.
abbrev pub resolve_response : String → Instant → String → PoolResponse → PoolResponse
resolve_response selected_executor_id instant executor_id response =
    if is_interested response.status
    then record {
      executor_id = executor_id;
      status =
          if executor_id == selected_executor_id
          then PoolResponseStatus.selected
          else PoolResponseStatus.rejected;
      responded_at = instant;
    }
    else response

unfoldable pub resolve_curated_responses :
    String → Instant → Dict String PoolResponse → Dict String PoolResponse
resolve_curated_responses selected_executor_id instant [] = []
resolve_curated_responses selected_executor_id instant ((executor_id, response) ∷ responses) =
    (executor_id, resolve_response selected_executor_id instant executor_id response)
    ∷ resolve_curated_responses selected_executor_id instant responses

unfoldable pub assign :
    String → Option String → Option Instant → Ambient → WorkOrder → Result WorkOrder
unfolding require_status require_coordinator_if_present require_executor_id record_event
assign executor_id actor_id now env o = do
  require_status (WorkOrderStatus.submitted ∷ WorkOrderStatus.pool_open ∷ []) o
  require_coordinator_if_present actor_id o
  require_executor_id executor_id
  let instant = or_clock now env
  let taken = record o { assignee_id = some executor_id; status = WorkOrderStatus.assigned }
  let resolved =
      if is_mode o.pool_mode PoolMode.curated
      then record taken {
        pool_responses = resolve_curated_responses executor_id instant o.pool_responses;
      }
      else taken
  ok (
      record_event "work_order.assigned"
        (("executor_id", text executor_id) ∷ ("actor_id", optional actor_id) ∷ []) (some instant)
        env resolved)

unfoldable pub accept : String → Option Instant → Ambient → WorkOrder → Result WorkOrder
unfolding require_status require_assignee record_event
accept executor_id now env o = do
  require_status (WorkOrderStatus.assigned ∷ []) o
  require_assignee executor_id o
  ok (
      record_event "work_order.accepted" (("executor_id", text executor_id) ∷ []) now env
        (record o { status = WorkOrderStatus.accepted }))

abbrev after_rejection : Option PoolMode → WorkOrderStatus
after_rejection none = WorkOrderStatus.submitted
after_rejection (some _) = WorkOrderStatus.pool_open

unfoldable pub reject_assignment : String → Option Instant → Ambient → WorkOrder → Result WorkOrder
unfolding require_status require_assignee record_event
reject_assignment executor_id now env o = do
  require_status (WorkOrderStatus.assigned ∷ []) o
  require_assignee executor_id o
  let instant = or_clock now env
  let answered : WorkOrder = elim (get o.pool_responses executor_id) [
    | none ↦ o
    | some _ ↦ respond executor_id PoolResponseStatus.withdrawn instant o
  ]
  ok (
      record_event "work_order.assignment_rejected" (("executor_id", text executor_id) ∷ [])
        (some instant) env
        (record answered { assignee_id = none; status = after_rejection o.pool_mode }))

unfoldable pub start_travel : String → Option Instant → Ambient → WorkOrder → Result WorkOrder
unfolding require_status require_assignee record_event
start_travel executor_id now env o = do
  require_assignee executor_id o
  require_status (WorkOrderStatus.accepted ∷ []) o
  ok (
      record_event "work_order.travel_started" (("executor_id", text executor_id) ∷ []) now env
        (record o { status = WorkOrderStatus.en_route }))

unfoldable pub start_work : String → Option Instant → Ambient → WorkOrder → Result WorkOrder
unfolding require_status require_assignee record_event
start_work executor_id now env o = do
  require_assignee executor_id o
  require_status (WorkOrderStatus.accepted ∷ WorkOrderStatus.en_route ∷ []) o
  ok (
      record_event "work_order.started" (("executor_id", text executor_id) ∷ []) now env
        (record o { status = WorkOrderStatus.in_progress }))

unfoldable pub complete :
    String → CompletionReport → Option Instant → Ambient → WorkOrder → Result WorkOrder
unfolding require_status require_assignee record_event
complete executor_id report now env o = do
  require_assignee executor_id o
  require_status (WorkOrderStatus.in_progress ∷ []) o
  validate_report report o
  ok (
      record_event "work_order.completed"
        (("executor_id", text executor_id)
          ∷ ("photo_count", number (length report.photo_refs))
          ∷ [])
        now env (record o { report = some report; status = WorkOrderStatus.completed }))

unfoldable pub cancel :
    String → Option String → Option Instant → Ambient → WorkOrder → Result WorkOrder
unfolding require_not_terminal require_coordinator_if_present record_event
cancel reason actor_id now env o = do
  require_not_terminal o
  require_coordinator_if_present actor_id o
  raise_if (is_empty reason || is_empty (strip reason)) (value_error Invalid.reason_required)
  ok (
      record_event "work_order.cancelled"
        (("reason", text (strip reason)) ∷ ("actor_id", optional actor_id) ∷ []) now env
        (record o { status = WorkOrderStatus.cancelled }))

unfoldable pub interested_keys : Dict String PoolResponse → List String
interested_keys [] = []
interested_keys ((executor_id, response) ∷ responses) =
    let rest = interested_keys responses in
    if is_interested response.status then executor_id ∷ rest else rest

unfoldable pub interested_executor_ids : WorkOrder → List String
unfolding interested_keys
interested_executor_ids o = interested_keys o.pool_responses

-- The events, and the order without them.
unfoldable pub pull_events : WorkOrder → List DomainEvent × WorkOrder
pull_events o = (o.events, record o { events = [] })
