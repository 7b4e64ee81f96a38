-- ===== src/Domain/WorkOrder/Data.antt =====
-- The enumerations and data classes of work_order.py.
use dispatch_core.Shared.{ℕ, Bool, true, false, String, Option, List}
use dispatch_core.Shared.Dict.{Dict}
use dispatch_core.Domain.Events.{DomainEvent, Instant, Value}

pub data PoolMode : Type 0 where
  curated first_claim : PoolMode

pub data PoolResponseStatus : Type 0 where
  interested selected rejected withdrawn : PoolResponseStatus

pub data WorkOrderStatus : Type 0 where
  submitted pool_open assigned accepted en_route in_progress completed cancelled : WorkOrderStatus

abbrev pub is_interested : PoolResponseStatus → Bool
is_interested PoolResponseStatus.interested = true
is_interested _ = false

-- `status in TERMINAL_STATUSES`
abbrev pub is_terminal : WorkOrderStatus → Bool
is_terminal WorkOrderStatus.completed = true
is_terminal WorkOrderStatus.cancelled = true
is_terminal _ = false

-- `StrEnum.value` of a pool mode
abbrev pub mode_value : PoolMode → String
mode_value PoolMode.curated = "curated"
mode_value PoolMode.first_claim = "first_claim"

-- `a is b` of two pool modes, the first of which may be `None`
abbrev pub is_mode : Option PoolMode → PoolMode → Bool
is_mode (Option.some PoolMode.curated) PoolMode.curated = true
is_mode (Option.some PoolMode.first_claim) PoolMode.first_claim = true
is_mode _ _ = false

pub record EvidenceRequirements : Type 0 where
  pub minimum_photos : ℕ
  pub comment_required : Bool
  pub signature_required : Bool
  pub customer_code_required : Bool

-- The defaults of `EvidenceRequirements()`
abbrev pub no_evidence : EvidenceRequirements
no_evidence = record {
  minimum_photos = 0;
  comment_required = false;
  signature_required = false;
  customer_code_required = false;
}

pub record CompletionReport : Type 0 where
  pub photo_refs : List String
  pub comment : Option String
  pub signature_ref : Option String
  pub customer_code : Option String

pub record PoolResponse : Type 0 where
  pub executor_id : String
  pub status : PoolResponseStatus
  pub responded_at : Instant

-- `events` is the attribute `_events`.
pub record WorkOrder : Type 0 where
  pub id : String
  pub public_number : String
  pub organization_id : String
  pub work_type : String
  pub source : String
  pub details : Dict String Value
  pub requester_id : Option String
  pub coordinator_id : Option String
  pub evidence_requirements : EvidenceRequirements
  pub status : WorkOrderStatus
  pub pool_mode : Option PoolMode
  pub assignee_id : Option String
  pub pool_responses : Dict String PoolResponse
  pub report : Option CompletionReport
  pub version : ℕ
  pub created_at : Instant
  pub updated_at : Instant
  pub events : List DomainEvent
