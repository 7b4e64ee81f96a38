-- ===== src/Domain/WorkOrder/Copies.antt =====
-- `WorkOrder.__deepcopy__` of src/dispatch_core/domain/work_order.py: the copy is built from copies of the
-- fields by the constructor, which checks it again.
use dispatch_core.Shared.{◌≡◌, refl, ap, ◌∙◌, arith, [], ◌∷◌}
use dispatch_core.Domain.Errors.{Result, ok}
use dispatch_core.Domain.Events.Copies.{
  copy_payload, copy_events, copy_payload_same, copy_events_same,
}
use dispatch_core.Domain.WorkOrder.Data.{WorkOrder}
use dispatch_core.Domain.WorkOrder.Guards.{post_init}
use dispatch_core.Domain.WorkOrder.Invariant.{IsValid}
use dispatch_core.Domain.WorkOrder.Pool.{Responses}

unfoldable pub copy_responses : Responses → Responses
copy_responses [] = []
copy_responses ((k, r) ∷ d) =
    (k, record { executor_id = r.executor_id; status = r.status; responded_at = r.responded_at })
    ∷ copy_responses d

-- What the constructor is called with.
unfoldable pub copied : WorkOrder → WorkOrder
unfolding copy_payload copy_responses copy_events
copied o = record {
  id = o.id;
  public_number = o.public_number;
  organization_id = o.organization_id;
  work_type = o.work_type;
  source = o.source;
  details = copy_payload o.details;
  requester_id = o.requester_id;
  coordinator_id = o.coordinator_id;
  evidence_requirements = o.evidence_requirements;
  status = o.status;
  pool_mode = o.pool_mode;
  assignee_id = o.assignee_id;
  pool_responses = copy_responses o.pool_responses;
  report = o.report;
  version = o.version;
  created_at = o.created_at;
  updated_at = o.updated_at;
  events = copy_events o.events;
}

unfoldable pub deep_copy : WorkOrder → Result WorkOrder
unfolding copied post_init
deep_copy o = post_init (copied o)

copy_responses_same : (d : Responses) → copy_responses d ≡ d
unfolding copy_responses
copy_responses_same [] = refl
copy_responses_same ((k, r) ∷ d) = ap (◌∷◌ (k, r)) (copy_responses_same d)

copied_same : (o : WorkOrder) → copied o ≡ o
unfolding copied
copied_same o =
    rw
      (copy_payload_same o.details, copy_responses_same o.pool_responses, copy_events_same o.events)
      refl

post_init-IsValid : (o : WorkOrder) → IsValid o → post_init o ≡ ok o
unfolding post_init
post_init-IsValid o v = ground arith

-- The deep copy of a valid order, which is built field by field with every list and dict built anew,
-- passes the check of the constructor and is equal to the order in every field.
pub deep_copy-IsValid : (o : WorkOrder) → IsValid o → deep_copy o ≡ ok o
unfolding deep_copy
deep_copy-IsValid o v = ap post_init (copied_same o) ∙ post_init-IsValid o v
