-- ===== src/Infrastructure/AsyncMemory/Commit.antt =====
-- `AsyncMemoryUnitOfWork.commit` and its checks. The rounds over one collection are those of the
-- synchronous unit.
use dispatch_core.Shared.{
  Bool, true, false, String, ◌==◌, pair_eq, Option, none, some, List, [], ◌∷◌, ◌++◌, any,
}
use dispatch_core.Shared.Dict.{values}
use dispatch_core.Domain.Errors.{concurrency_conflict, Conflict, Result, ok, err, ◌>>◌}
use dispatch_core.Domain.WorkOrder.{WorkOrder}
use dispatch_core.Domain.Tracking.{TrackingSession}
use dispatch_core.Infrastructure.Memory.{check_collection_versions, write_all, is_occupying}
use dispatch_core.Application.Task.{Async, act, finished, with_unit}
use dispatch_core.Infrastructure.AsyncMemory.Store.{
  Key, AsyncMemoryStore, AsyncMemoryUnitOfWork, clear,
}

unfoldable pub check_versions : AsyncMemoryUnitOfWork → AsyncMemoryStore → Result (Unit {0})
unfolding check_collection_versions
check_versions u s =
    check_collection_versions (λ (o : WorkOrder). o.version) s.orders u.staged_orders
    >> check_collection_versions (λ (t : TrackingSession). t.version) s.tracking_sessions
        u.staged_tracking

abbrev key_if : Bool → String → String → Option Key
key_if true organization_id assignee_id = some (organization_id, assignee_id)
key_if false organization_id assignee_id = none

-- The organization and the executor that an active order occupies.
unfoldable pub occupied_pair : WorkOrder → Option Key
occupied_pair o = elim o.assignee_id [
  | none ↦ none
  | some assignee_id ↦ key_if (is_occupying o.status) o.organization_id assignee_id
]

unfoldable pub check_capacity : List Key → List WorkOrder → Result (Unit {0})
check_capacity occupied [] = ok tt
check_capacity occupied (o ∷ orders) = elim (occupied_pair o) [
  | none ↦ check_capacity occupied orders
  | some key ↦ elim (any (λ k. k == key) occupied) [
    | true ↦ err (concurrency_conflict Conflict.executor_busy)
    | false ↦ check_capacity (key ∷ occupied) orders
  ]
]

unfoldable pub check_executor_capacity :
    AsyncMemoryUnitOfWork → AsyncMemoryStore → Result (Unit {0})
unfolding write_all check_capacity
check_executor_capacity u s = check_capacity [] (values (write_all s.orders u.staged_orders))

unfoldable pub written : AsyncMemoryUnitOfWork → AsyncMemoryStore → AsyncMemoryStore
unfolding write_all
written u s = record s {
  orders = write_all s.orders u.staged_orders;
  tracking_sessions = write_all s.tracking_sessions u.staged_tracking;
  outbox_events = s.outbox_events ++ u.staged_events;
}

abbrev pub checks : AsyncMemoryUnitOfWork → AsyncMemoryStore → Result (Unit {0})
checks u s = check_versions u s >> check_executor_capacity u s

abbrev pub write_if :
    Result (Unit {0}) → AsyncMemoryUnitOfWork → AsyncMemoryStore → AsyncMemoryStore
write_if (ok _) u s = written u s
write_if (err e) u s = s

-- The lock is held from the checks to the last write, so all of it is one step.
unfoldable pub commit : Async AsyncMemoryStore AsyncMemoryUnitOfWork (Unit {0})
unfolding check_versions check_executor_capacity
commit u =
    act (λ s. write_if (checks u s) u s)
      (λ s. finished (with_unit (checks u s) (clear (record u { committed = true }))))
