-- ===== src/Infrastructure/Memory/Repositories.antt =====
-- `_OrderRepository`, `_TrackingRepository` and `_Outbox`.
use dispatch_core.Shared.{
  ℕ, ◌+◌, Bool, ◌&&◌, if◌then◌else◌, String, ◌==◌, string_eq, pair_eq, Option, none, some, List, [],
  ◌∷◌, ◌++◌,
}
use dispatch_core.Shared.Dict.{Dict, get, put}
use dispatch_core.Domain.Errors.{not_found, runtime_error, Result, ok, err}
use dispatch_core.Domain.Events.{DomainEvent}
use dispatch_core.Domain.OrderNumbers.{format_order_number}
use dispatch_core.Domain.WorkOrder
use dispatch_core.Domain.WorkOrder.{WorkOrder}
use dispatch_core.Domain.Tracking
use dispatch_core.Domain.Tracking.{TrackingSession, is_active}
use dispatch_core.Application.Exec.{Exec}
use dispatch_core.Infrastructure.Memory.Store.{MemoryStore, InMemoryUnitOfWork}

abbrev pub or_zero : Option ℕ → ℕ
or_zero none = 0
or_zero (some n) = n

-- The counter is written to the shared store at once, whether or not the unit commits.
unfoldable pub allocate_public_number : String → Exec InMemoryUnitOfWork String
allocate_public_number organization_id u =
    let sequence = or_zero (get u.store.order_number_counters organization_id) + 1 in
    let counters = put u.store.order_number_counters organization_id sequence in
    let store : MemoryStore = record (u.store) { order_number_counters = counters } in
    (format_order_number sequence, record u { store = store })

abbrev pub owned : String → Option WorkOrder → Result WorkOrder
owned organization_id none = err not_found
owned organization_id (some stored) =
    if stored.organization_id == organization_id then ok stored else err not_found

unfoldable pub get_order : String → String → Exec InMemoryUnitOfWork WorkOrder
get_order organization_id order_id u = (owned organization_id (get u.store.orders order_id), u)

unfoldable pub save_order : WorkOrder → Option ℕ → Exec InMemoryUnitOfWork (Unit {0})
unfolding WorkOrder.pull_events
save_order order expected_version u = (
  ok tt,
  record u {
    staged_orders = put u.staged_orders order.id (record {
      snapshot = (WorkOrder.pull_events order).1;
      expected_version = expected_version;
    });
  },
)

abbrev pub found : Option TrackingSession → Result TrackingSession
found none = err not_found
found (some stored) = ok stored

unfoldable pub get_session : String → String → Exec InMemoryUnitOfWork TrackingSession
get_session organization_id session_id u =
    (found (get u.store.tracking_sessions (organization_id, session_id)), u)

-- The sessions that are active for an order.
abbrev pub is_match : String → String → String × String → TrackingSession → Bool
is_match organization_id order_id key item =
    key.0 == organization_id && (item.work_order_id == order_id && is_active item.status)

unfoldable pub matches :
    String → String → Dict (String × String) TrackingSession → List TrackingSession
matches organization_id order_id [] = []
matches organization_id order_id ((key, item) ∷ sessions) =
    let rest = matches organization_id order_id sessions in
    if is_match organization_id order_id key item then item ∷ rest else rest

abbrev pub at_most_one : List TrackingSession → Result (Option TrackingSession)
at_most_one [] = ok none
at_most_one (item ∷ []) = ok (some item)
at_most_one (item ∷ other ∷ items) = err runtime_error

unfoldable pub find_active_for_order :
    String → String → Exec InMemoryUnitOfWork (Option TrackingSession)
find_active_for_order organization_id order_id u =
    (at_most_one (matches organization_id order_id u.store.tracking_sessions), u)

unfoldable pub save_session : TrackingSession → Option ℕ → Exec InMemoryUnitOfWork (Unit {0})
unfolding Tracking.pull_events
save_session session expected_version u = (
  ok tt,
  record u {
    staged_tracking =
        put u.staged_tracking (session.organization_id, session.id)
          (record {
            snapshot = (Tracking.pull_events session).1;
            expected_version = expected_version;
          });
  },
)

unfoldable pub add_events : List DomainEvent → Exec InMemoryUnitOfWork (Unit {0})
add_events events u = (ok tt, record u { staged_events = u.staged_events ++ events })
