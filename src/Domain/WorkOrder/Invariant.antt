-- ===== src/Domain/WorkOrder/Invariant.antt =====
-- What holds of every work order that the methods produce.
use dispatch_core.Shared.{
  false, ◌≡◌, ◌≢◌, refl, Option, none, some, [], arith, String, is_empty, eq_iff, string_eq,
}
use dispatch_core.Shared.Dict.{Distinct, put-Distinct}
use dispatch_core.Domain.Errors.{ok}
use dispatch_core.Domain.Events.{Ambient, Instant, or_clock}
use dispatch_core.Domain.WorkOrder.Data.{
  WorkOrder, WorkOrderStatus, PoolMode, PoolResponse, PoolResponseStatus, CompletionReport,
  EvidenceRequirements,
}
use dispatch_core.Domain.WorkOrder.Methods.{Submission, create, interested_keys}
use dispatch_core.Domain.WorkOrder.Commands.{Command, apply}
use dispatch_core.Domain.WorkOrder.Enabled.{Suffices, validate_report_iff}
use dispatch_core.Domain.WorkOrder.Pool.{
  Responses, IsKeyed, put-IsKeyed, get_of_nil, interested_keys-put, has_interest_of_keys,
  resolve-IsKeyed, resolve-Distinct, interested_keys-resolve,
}

-- The pool mode and the assignee that go with a status.
abbrev pub Shape : WorkOrderStatus → Option PoolMode → Option String → Type 0
Shape WorkOrderStatus.submitted mode assignee = (mode ≡ none) × (assignee ≡ none)
Shape WorkOrderStatus.pool_open mode assignee = (mode ≢ none) × (assignee ≡ none)
Shape WorkOrderStatus.cancelled mode assignee = Unit
Shape _ mode assignee = (assignee ≢ none) × (assignee ≢ some "")

-- A completed order has a report that suffices, and no other order has a report.
abbrev pub Reported : WorkOrderStatus → EvidenceRequirements → Option CompletionReport → Type 0
Reported WorkOrderStatus.completed rules (some report) = Suffices rules report
Reported WorkOrderStatus.completed rules none = ⊥
Reported _ rules report = report ≡ none

-- Interest is pending only while the pool is open, or was when the order was cancelled.
abbrev pub Quiet : WorkOrderStatus → Responses → Type 0
Quiet WorkOrderStatus.pool_open responses = Unit
Quiet WorkOrderStatus.cancelled responses = Unit
Quiet _ responses = interested_keys responses ≡ []

-- Only a curated pool gathers interest, and without a pool there are no answers.
abbrev pub Gathered : Option PoolMode → Responses → Type 0
Gathered none responses = responses ≡ []
Gathered (some PoolMode.first_claim) responses = interested_keys responses ≡ []
Gathered (some PoolMode.curated) responses = Unit

pub record IsValid (o : WorkOrder) : Type 0 where
  pub id : is_empty o.id ≡ false
  pub public_number : is_empty o.public_number ≡ false
  pub organization_id : is_empty o.organization_id ≡ false
  pub work_type : is_empty o.work_type ≡ false
  pub shape : Shape o.status o.pool_mode o.assignee_id
  pub report : Reported o.status o.evidence_requirements o.report
  pub keyed : IsKeyed o.pool_responses
  pub distinct : Distinct o.pool_responses
  pub quiet : Quiet o.status o.pool_responses
  pub gathered : Gathered o.pool_mode o.pool_responses

-- A new order is valid.
pub create-IsValid :
    (s : Submission) (now : Option Instant) (env : Ambient) {o : WorkOrder}
    → create s now env ≡ ok o
    → IsValid o
unfolding create interested_keys
create-IsValid s now env h = ground arith

-- An answer as the methods write it.
abbrev answer : String → PoolResponseStatus → Option Instant → Ambient → PoolResponse
answer e s now env = record { executor_id = e; status = s; responded_at = or_clock now env }

module _ (now : Option Instant) (env : Ambient) (o : WorkOrder) {o' : WorkOrder} where
  -- Every command that succeeds on a valid order leaves a valid order.
  pub apply-IsValid : (c : Command) → IsValid o → apply c now env o ≡ ok o' → IsValid o'
  unfolding apply
  apply-IsValid (Command.claim_coordination c) v h = ground arith
  apply-IsValid (Command.publish_pool m a) v h = ground arith
  apply-IsValid (Command.express_interest e) v h = ground (
    arith,
    put-IsKeyed o.pool_responses e (answer e PoolResponseStatus.interested now env) v.keyed refl,
    put-Distinct o.pool_responses e (answer e PoolResponseStatus.interested now env) v.distinct,
    eq_iff e "",
  )
  apply-IsValid (Command.withdraw_interest e) v h = ground (
    arith,
    put-IsKeyed o.pool_responses e (answer e PoolResponseStatus.withdrawn now env) v.keyed refl,
    put-Distinct o.pool_responses e (answer e PoolResponseStatus.withdrawn now env) v.distinct,
    interested_keys-put o.pool_responses e (answer e PoolResponseStatus.withdrawn now env) refl,
  )
  apply-IsValid (Command.claim_first e) v h = ground (
    arith,
    put-IsKeyed o.pool_responses e (answer e PoolResponseStatus.selected now env) v.keyed refl,
    put-Distinct o.pool_responses e (answer e PoolResponseStatus.selected now env) v.distinct,
    interested_keys-put o.pool_responses e (answer e PoolResponseStatus.selected now env) refl,
    eq_iff e "",
  )
  apply-IsValid (Command.assign e a) v h = ground (
    arith,
    resolve-IsKeyed e (or_clock now env) o.pool_responses v.keyed,
    resolve-Distinct e (or_clock now env) o.pool_responses v.distinct,
    interested_keys-resolve e (or_clock now env) o.pool_responses,
    eq_iff e "",
  )
  apply-IsValid (Command.accept e) v h = ground arith
  apply-IsValid (Command.reject_assignment e) v h = ground (
    arith,
    put-IsKeyed o.pool_responses e (answer e PoolResponseStatus.withdrawn now env) v.keyed refl,
    put-Distinct o.pool_responses e (answer e PoolResponseStatus.withdrawn now env) v.distinct,
    interested_keys-put o.pool_responses e (answer e PoolResponseStatus.withdrawn now env) refl,
    has_interest_of_keys o.pool_responses e,
    get_of_nil o.pool_responses e,
  )
  apply-IsValid (Command.start_travel e) v h = ground arith
  apply-IsValid (Command.start_work e) v h = ground arith
  apply-IsValid (Command.complete e r) v h = ground (arith, validate_report_iff r o)
  apply-IsValid (Command.cancel x a) v h = ground arith
