-- ===== src/Domain/WorkOrder/Guards.antt =====
-- The checks of `WorkOrder` that only raise: `_require_*`, `_validate_report`, `__post_init__`.
use dispatch_core.Shared.{
  Bool, true, false, not, ◌&&◌, ◌||◌, ltb, if◌then◌else◌, String, is_empty, is_present, strip,
  is_some_of, Option, none, some, List, [], ◌∷◌, ◌++◌, length,
}
use dispatch_core.Domain.Errors.{
  value_error, invalid_transition, evidence_missing, Invalid, Refusal, Evidence, Result, ok, err,
  raise_if,
}
use dispatch_core.Domain.WorkOrder.Data.{
  WorkOrder, WorkOrderStatus, PoolMode, CompletionReport, EvidenceRequirements, is_terminal,
  is_mode,
}

-- `__post_init__`; the copies of `details` and `pool_responses` equal them.
unfoldable pub post_init : WorkOrder → Result WorkOrder
post_init o =
    if is_empty o.id
      || is_empty o.public_number
      || is_empty o.organization_id
      || is_empty o.work_type
    then err (value_error Invalid.identity_required)
    else ok o

unfoldable pub require_not_terminal : WorkOrder → Result (Unit {0})
require_not_terminal o = raise_if (is_terminal o.status) (invalid_transition Refusal.terminal)

unfoldable pub require_coordinator_if_present : Option String → WorkOrder → Result (Unit {0})
require_coordinator_if_present actor_id o = elim o.coordinator_id [
  | none ↦ ok tt
  | some c ↦ raise_if (not (is_some_of actor_id c)) (invalid_transition Refusal.other_coordinator)
]

unfoldable pub require_assignee : String → WorkOrder → Result (Unit {0})
require_assignee executor_id o =
    raise_if (not (is_some_of o.assignee_id executor_id)) (invalid_transition Refusal.not_assignee)

unfoldable pub require_executor_id : String → Result (Unit {0})
require_executor_id executor_id =
    raise_if (is_empty executor_id) (value_error Invalid.executor_required)

abbrev same_status : WorkOrderStatus → WorkOrderStatus → Bool
same_status WorkOrderStatus.submitted WorkOrderStatus.submitted = true
same_status WorkOrderStatus.pool_open WorkOrderStatus.pool_open = true
same_status WorkOrderStatus.assigned WorkOrderStatus.assigned = true
same_status WorkOrderStatus.accepted WorkOrderStatus.accepted = true
same_status WorkOrderStatus.en_route WorkOrderStatus.en_route = true
same_status WorkOrderStatus.in_progress WorkOrderStatus.in_progress = true
same_status WorkOrderStatus.completed WorkOrderStatus.completed = true
same_status WorkOrderStatus.cancelled WorkOrderStatus.cancelled = true
same_status _ _ = false

-- `status in allowed`
abbrev is_among : WorkOrderStatus → List WorkOrderStatus → Bool
is_among s [] = false
is_among s (a ∷ allowed) = same_status s a || is_among s allowed

unfoldable pub require_status : List WorkOrderStatus → WorkOrder → Result (Unit {0})
require_status allowed o =
    raise_if (not (is_among o.status allowed)) (invalid_transition Refusal.wrong_status)

unfoldable pub require_pool_mode : PoolMode → WorkOrder → Result (Unit {0})
unfolding require_status
require_pool_mode mode o = elim (require_status (WorkOrderStatus.pool_open ∷ []) o) [
  | ok _ ↦ raise_if (not (is_mode o.pool_mode mode)) (invalid_transition Refusal.wrong_pool_mode)
  | err e ↦ err e
]

abbrev item_if : Bool → Evidence → List Evidence
item_if true e = e ∷ []
item_if false e = []

-- `comment and comment.strip()`
unfoldable pub has_text : Option String → Bool
unfolding strip
has_text none = false
has_text (some s) = not (is_empty s) && not (is_empty (strip s))

-- What `_validate_report` gathers in `missing`.
unfoldable pub missing_evidence : EvidenceRequirements → CompletionReport → List Evidence
missing_evidence rules report =
    item_if (ltb (length report.photo_refs) rules.minimum_photos)
      (Evidence.photos rules.minimum_photos)
    ++ (item_if (rules.comment_required && not (has_text report.comment)) Evidence.comment
        ++ (item_if (rules.signature_required && not (is_present report.signature_ref))
              Evidence.signature
            ++ item_if (rules.customer_code_required && not (is_present report.customer_code))
                Evidence.customer_code))

abbrev raise_missing : List Evidence → Result (Unit {0})
raise_missing [] = ok tt
raise_missing (e ∷ es) = err (evidence_missing (e ∷ es))

unfoldable pub validate_report : CompletionReport → WorkOrder → Result (Unit {0})
unfolding missing_evidence
validate_report report o = raise_missing (missing_evidence o.evidence_requirements report)
