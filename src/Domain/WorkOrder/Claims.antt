-- ===== src/Domain/WorkOrder/Claims.antt =====
-- How an executor gets an order: by a first claim, or by an assignment that settles the pool.
use dispatch_core.Shared.{
  ◌≡◌, refl, ap, Bool, true, false, String, ◌==◌, Option, none, some, [], arith, string_eq,
}
use dispatch_core.Shared.Dict.{get}
use dispatch_core.Domain.Errors.{ok, err, invalid_transition, Refusal}
use dispatch_core.Domain.Events.{Ambient, Instant, or_clock}
use dispatch_core.Domain.WorkOrder.Data.{
  WorkOrder, WorkOrderStatus, PoolMode, PoolResponse, PoolResponseStatus,
}
use dispatch_core.Domain.WorkOrder.Methods.{
  claim_first, assign, interested_executor_ids, resolve_response,
}
use dispatch_core.Domain.WorkOrder.Pool.{resolved, get-resolve, interested_keys-resolve}

-- After a claim that succeeds the order is assigned to the claimer, and a further claim on it is
-- refused, whoever makes it.
pub claim_first_wins :
    (e e' : String) (now now' : Option Instant) (env env' : Ambient) (o : WorkOrder)
    {o' : WorkOrder}
    → claim_first e now env o ≡ ok o'
    → (o'.assignee_id ≡ some e)
      × (o'.status ≡ WorkOrderStatus.assigned)
      × (claim_first e' now' env' o' ≡ err (invalid_transition Refusal.wrong_status))
unfolding claim_first
claim_first_wins e e' now now' env env' o h = ground arith

-- The answer of an interested executor when somebody is chosen.
abbrev pub verdict : Bool → PoolResponseStatus
verdict true = PoolResponseStatus.selected
verdict false = PoolResponseStatus.rejected

-- What the choice of `chosen` makes of the answer that stands under `k`, by the answer's status.
abbrev pub after_choice :
    String → Instant → String → PoolResponseStatus → PoolResponse → PoolResponse
after_choice chosen t k PoolResponseStatus.interested r = record {
  executor_id = k;
  status = verdict (k == chosen);
  responded_at = t;
}
after_choice chosen t k PoolResponseStatus.withdrawn r = r
after_choice chosen t k PoolResponseStatus.selected r = r
after_choice chosen t k PoolResponseStatus.rejected r = r

abbrev pub chosen_from : String → Instant → String → Option PoolResponse → Option PoolResponse
chosen_from chosen t k none = none
chosen_from chosen t k (some r) = some (after_choice chosen t k r.status r)

resolve-after_choice :
    (chosen : String) (t : Instant) (k : String) (status : PoolResponseStatus) (r : PoolResponse)
    → r.status ≡ status
    → resolve_response chosen t k r ≡ after_choice chosen t k status r
resolve-after_choice chosen t k PoolResponseStatus.interested r e = ground (arith, e)
resolve-after_choice chosen t k PoolResponseStatus.withdrawn r e = ground (arith, e)
resolve-after_choice chosen t k PoolResponseStatus.selected r e = ground (arith, e)
resolve-after_choice chosen t k PoolResponseStatus.rejected r e = ground (arith, e)

resolved-chosen_from :
    (chosen : String) (t : Instant) (k : String) (r : Option PoolResponse)
    → resolved chosen t k r ≡ chosen_from chosen t k r
resolved-chosen_from chosen t k none = refl
resolved-chosen_from chosen t k (some r) = ap some (resolve-after_choice chosen t k r.status r refl)

-- Assigning an order of a curated pool, when it succeeds, selects the assignee, if interested, and
-- rejects every other interested executor, both at the time of the call, leaves every answer of
-- another status and every executor without one alone, leaves nobody interested, and makes the
-- executor the assignee.
pub assign-resolves :
    (e : String) (actor : Option String) (now : Option Instant) (env : Ambient) (o : WorkOrder)
    {o' : WorkOrder} (k : String)
    → o.pool_mode ≡ some PoolMode.curated
    → assign e actor now env o ≡ ok o'
    → (get o'.pool_responses k ≡ chosen_from e (or_clock now env) k (get o.pool_responses k))
      × (interested_executor_ids o' ≡ [])
      × (o'.assignee_id ≡ some e)
unfolding assign interested_executor_ids
assign-resolves e actor now env o k curated h = ground (
  arith,
  get-resolve e (or_clock now env) o.pool_responses k,
  resolved-chosen_from e (or_clock now env) k (get o.pool_responses k),
  interested_keys-resolve e (or_clock now env) o.pool_responses,
)
