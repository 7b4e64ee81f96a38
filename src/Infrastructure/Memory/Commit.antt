-- ===== src/Infrastructure/Memory/Commit.antt =====
-- `InMemoryUnitOfWork.commit` and its checks.
use Prim.Native.String.{◌++◌ as joined}
use dispatch_core.Shared.{
  ℕ, Bool, true, false, ◌==ℕ◌, if◌then◌else◌, String, ◌==◌, string_eq, pair_eq, HasEq, Option, none,
  some, List, [], ◌∷◌, ◌++◌, any,
}
use dispatch_core.Shared.Dict.{Dict, get, put, values}
use dispatch_core.Domain.Errors.{concurrency_conflict, Conflict, Result, ok, err, ◌>>◌}
use dispatch_core.Domain.WorkOrder.{WorkOrder, WorkOrderStatus}
use dispatch_core.Domain.Tracking.{TrackingSession}
use dispatch_core.Application.Exec.{Exec}
use dispatch_core.Infrastructure.Memory.Store.{MemoryStore, Staged, InMemoryUnitOfWork, clear}

-- One round of `_check_collection_versions`: the expected version against the stored one.
abbrev pub check_version : Option ℕ → Option ℕ → Result (Unit {0})
check_version none none = ok tt
check_version none (some current) = err (concurrency_conflict Conflict.already_exists)
check_version (some expected) none = err (concurrency_conflict Conflict.stale_version)
check_version (some expected) (some current) =
    if current ==ℕ expected then ok tt else err (concurrency_conflict Conflict.stale_version)

abbrev pub version_of : {A : Type 0} → (A → ℕ) → Option A → Option ℕ
version_of version none = none
version_of version (some a) = some (version a)

module _ {K A : Type 0} ⦃e : HasEq K⦄ where
  unfoldable pub check_collection_versions :
      (A → ℕ) → Dict K A → Dict K (Staged A) → Result (Unit {0})
  check_collection_versions version stored [] = ok tt
  check_collection_versions version stored ((key, staged) ∷ rest) =
      check_version staged.expected_version (version_of version (get stored key))
      >> check_collection_versions version stored rest

  -- `for key, (snapshot, _) in staged.items(): stored[key] = snapshot`
  unfoldable pub write_all : Dict K A → Dict K (Staged A) → Dict K A
  write_all stored [] = stored
  write_all stored ((key, staged) ∷ rest) = write_all (put stored key staged.snapshot) rest

unfoldable pub check_versions : InMemoryUnitOfWork → Result (Unit {0})
unfolding check_collection_versions
check_versions u =
    check_collection_versions (λ (o : WorkOrder). o.version) u.store.orders u.staged_orders
    >> check_collection_versions (λ (s : TrackingSession). s.version) u.store.tracking_sessions
        u.staged_tracking

-- `status.value in active_statuses`
abbrev pub is_occupying : WorkOrderStatus → Bool
is_occupying WorkOrderStatus.assigned = true
is_occupying WorkOrderStatus.accepted = true
is_occupying WorkOrderStatus.en_route = true
is_occupying WorkOrderStatus.in_progress = true
is_occupying _ = false

abbrev key_if : Bool → String → String → Option String
key_if true organization_id assignee_id = some (joined organization_id (joined ":" assignee_id))
key_if false organization_id assignee_id = none

-- The key under which an order occupies its executor: `f"{organization_id}:{assignee_id}"`.
unfoldable pub occupied_key : WorkOrder → Option String
occupied_key o = elim o.assignee_id [
  | none ↦ none
  | some assignee_id ↦ key_if (is_occupying o.status) o.organization_id assignee_id
]

unfoldable pub check_capacity : List String → List WorkOrder → Result (Unit {0})
check_capacity occupied [] = ok tt
check_capacity occupied (o ∷ orders) = elim (occupied_key o) [
  | none ↦ check_capacity occupied orders
  | some key ↦ elim (any (λ k. k == key) occupied) [
    | true ↦ err (concurrency_conflict Conflict.executor_busy)
    | false ↦ check_capacity (key ∷ occupied) orders
  ]
]

-- `merged.update({order.id: order for order, _ in staged.values()})`
unfoldable pub merge :
    Dict String WorkOrder → Dict String (Staged WorkOrder) → Dict String WorkOrder
merge stored [] = stored
merge stored ((key, staged) ∷ rest) = merge (put stored (staged.snapshot).id staged.snapshot) rest

unfoldable pub check_executor_capacity : InMemoryUnitOfWork → Result (Unit {0})
unfolding merge check_capacity
check_executor_capacity u = check_capacity [] (values (merge u.store.orders u.staged_orders))

-- The store with all that is staged written to it.
unfoldable pub written : InMemoryUnitOfWork → MemoryStore
unfolding write_all
written u = record (u.store) {
  orders = write_all u.store.orders u.staged_orders;
  tracking_sessions = write_all u.store.tracking_sessions u.staged_tracking;
  outbox_events = u.store.outbox_events ++ u.staged_events;
}

abbrev finish_commit : Result (Unit {0}) → Exec InMemoryUnitOfWork (Unit {0})
finish_commit (err e) u = (err e, u)
finish_commit (ok _) u = (ok tt, clear (record u { store = written u; committed = true }))

unfoldable pub commit : Exec InMemoryUnitOfWork (Unit {0})
unfolding written
commit u = finish_commit (check_versions u >> check_executor_capacity u) u
