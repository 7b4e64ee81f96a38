-- ===== src/Infrastructure/AsyncMemory/Repositories.antt =====
-- `_AsyncOrderRepository`, `_AsyncTrackingRepository` and `_AsyncOutbox`.
use dispatch_core.Shared.{
  ℕ, ◌+◌, Bool, ◌&&◌, String, ◌==◌, string_eq, pair_eq, is_some_of, Option, none, some, List, ◌++◌,
  any,
}
use dispatch_core.Shared.Dict.{get, put, values}
use dispatch_core.Domain.Errors.{not_found, Result, ok, err}
use dispatch_core.Domain.Events.{DomainEvent}
use dispatch_core.Domain.OrderNumbers.{format_order_number}
use dispatch_core.Domain.WorkOrder
use dispatch_core.Domain.WorkOrder.{WorkOrder}
use dispatch_core.Domain.Tracking
use dispatch_core.Domain.Tracking.{TrackingSession, TrackingPoint, source_value}
use dispatch_core.Infrastructure.Memory.{matches, at_most_one, or_zero}
use dispatch_core.Application.Task.{Async, act, finished, pure, with_unit, reads}
use dispatch_core.Infrastructure.AsyncMemory.Store.{AsyncMemoryStore, AsyncMemoryUnitOfWork}

abbrev pub next_sequence : String → AsyncMemoryStore → ℕ
next_sequence organization_id s = or_zero (get s.order_number_counters organization_id) + 1

-- The store with its counter moved on.
abbrev pub numbered : String → AsyncMemoryStore → AsyncMemoryStore
numbered organization_id s = record s {
  order_number_counters =
      put s.order_number_counters organization_id (next_sequence organization_id s);
}

unfoldable pub allocate_public_number : String → Async AsyncMemoryStore AsyncMemoryUnitOfWork String
allocate_public_number organization_id u =
    act (numbered organization_id)
      (λ s. finished (with_unit (format_order_number (next_sequence organization_id s)) u))

abbrev pub found {ℓ} : {A : Type ℓ} → Option A → Result A
found none = err not_found
found (some stored) = ok stored

unfoldable pub get_order : String → String → Async AsyncMemoryStore AsyncMemoryUnitOfWork WorkOrder
get_order organization_id order_id = reads (λ s. found (get s.orders (organization_id, order_id)))

unfoldable pub save_order :
    WorkOrder → Option ℕ → Async AsyncMemoryStore AsyncMemoryUnitOfWork (Unit {0})
unfolding WorkOrder.pull_events
save_order order expected_version u = pure tt (record u {
  staged_orders =
      put u.staged_orders (order.organization_id, order.id)
        (record {
          snapshot = (WorkOrder.pull_events order).1;
          expected_version = expected_version;
        });
})

unfoldable pub get_session :
    String → String → Async AsyncMemoryStore AsyncMemoryUnitOfWork TrackingSession
get_session organization_id session_id =
    reads (λ s. found (get s.tracking_sessions (organization_id, session_id)))

-- The comprehension is that of the synchronous repository, `matches`.
unfoldable pub find_active_for_order :
    String → String → Async AsyncMemoryStore AsyncMemoryUnitOfWork (Option TrackingSession)
find_active_for_order organization_id order_id =
    reads (λ s. at_most_one (matches organization_id order_id s.tracking_sessions))

abbrev pub is_source_event : String → String → TrackingPoint → Bool
is_source_event source id p = (source_value p.source == source) && is_some_of p.source_event_id id

abbrev pub holds_event : String → String → String → TrackingSession → Bool
holds_event organization_id source id t =
    (t.organization_id == organization_id) && any (is_source_event source id) t.points

unfoldable pub has_source_event :
    String → String → String → Async AsyncMemoryStore AsyncMemoryUnitOfWork Bool
has_source_event organization_id source source_event_id = reads (λ s.
    ok (any (holds_event organization_id source source_event_id) (values s.tracking_sessions)))

unfoldable pub save_session :
    TrackingSession → Option ℕ → Async AsyncMemoryStore AsyncMemoryUnitOfWork (Unit {0})
unfolding Tracking.pull_events
save_session session expected_version u = pure tt (record u {
  staged_tracking =
      put u.staged_tracking (session.organization_id, session.id)
        (record {
          snapshot = (Tracking.pull_events session).1;
          expected_version = expected_version;
        });
})

unfoldable pub add_events :
    List DomainEvent → Async AsyncMemoryStore AsyncMemoryUnitOfWork (Unit {0})
add_events events u = pure tt (record u { staged_events = u.staged_events ++ events })
