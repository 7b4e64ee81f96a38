-- ===== src/Dispatch/Closing.antt =====
-- What `cancel_order` and `complete_order` do to the store.
use dispatch_core.Shared.{
  ◌≡◌, append-nil, ◌++◌, String, Option, none, some, [], arith, eq_iff, string_eq, pair_eq,
  Option-cases, inl, inr,
}
use dispatch_core.Shared.Dict.{Dict, get, put, values}
use dispatch_core.Domain.Errors.{Result, ok, err, Error, Result-cases}
use dispatch_core.Domain.WorkOrder.{WorkOrder}
use dispatch_core.Domain.Tracking.{TrackingSession}
use dispatch_core.Application.Service.{close_order}
use dispatch_core.Infrastructure.Memory.{
  MemoryStore, in_memory, get_order, save_order, find_active_for_order, save_session, add_events,
  commit, check_capacity, check_executor_capacity, written, matches, at_most_one,
}

-- The store with one session written.
abbrev pub put_session : TrackingSession → MemoryStore → Dict (String × String) TrackingSession
put_session t s = put s.tracking_sessions (t.organization_id, t.id) (record t { events = [] })

-- What became of the session that was found, and what was sent.
pub data Closed (changed : WorkOrder) (close : TrackingSession → Result TrackingSession)
    (session : Option TrackingSession) (s s' : MemoryStore) : Type 0 where
  none_open :
      session ≡ none
      → s'.tracking_sessions ≡ s.tracking_sessions
      → s'.outbox_events ≡ s.outbox_events ++ changed.events
      → Closed changed close session s s'
  one_closed :
      (t t' : TrackingSession)
      → session ≡ some t
      → close t ≡ ok t'
      → s'.tracking_sessions ≡ put_session t' s
      → s'.outbox_events ≡ s.outbox_events ++ (changed.events ++ t'.events)
      → Closed changed close session s s'

-- The order was changed, and its active session, if it had one, was closed.
pub record Closes (organization_id order_id : String) (change : WorkOrder → Result WorkOrder)
    (close : TrackingSession → Result TrackingSession) (s : MemoryStore) (order : WorkOrder)
    (s' : MemoryStore) : Type 0 where
  pub found : WorkOrder
  pub changed : WorkOrder
  pub session : Option TrackingSession
  pub is_stored : get s.orders order_id ≡ some found
  pub is_owned : found.organization_id ≡ organization_id
  pub is_changed : change found ≡ ok changed
  pub capacity :
      check_capacity [] (values (put s.orders changed.id (record changed { events = [] }))) ≡ ok tt
  pub result : order ≡ record changed { events = [] }
  pub orders : s'.orders ≡ put s.orders changed.id (record changed { events = [] })
  pub counters : s'.order_number_counters ≡ s.order_number_counters
  pub is_active : at_most_one (matches organization_id order_id s.tracking_sessions) ≡ ok session
  pub closing : Closed changed close session s s'

module _ (organization_id order_id : String) (change : WorkOrder → Result WorkOrder)
    (close : TrackingSession → Result TrackingSession) (s : MemoryStore) where
  -- A call that raises leaves the store alone.
  pub close_order-err :
      {e : Error} {s' : MemoryStore}
      → close_order in_memory organization_id order_id change close s ≡ (err e, s')
      → s' ≡ s
  unfolding close_order get_order save_order find_active_for_order save_session add_events commit
  close_order-err h = ground arith

  -- A call that closes an order and succeeds changed the stored order of the organization as the
  -- command says, kept the orders within the executors' capacity, left the numbering alone, and
  -- found at most one active session of the order: if there is none, it leaves the sessions alone
  -- and appends the order's events to the outbox; if there is one, it stores that session closed
  -- and appends the order's and then the session's events.
  pub close_order-ok :
      {order : WorkOrder} {s' : MemoryStore}
      → close_order in_memory organization_id order_id change close s ≡ (ok order, s')
      → Closes organization_id order_id change close s order s'
  unfolding close_order get_order save_order find_active_for_order save_session add_events commit
      written check_executor_capacity put
  close_order-ok {order} {s'} h = elim (Option-cases (get s.orders order_id)) [
    | inl e ↦ absurd (ground arith)
    | inr (o, e) ↦ elim (Result-cases (change o)) [
      | inr (x, f) ↦ absurd (ground arith)
      | inl (o', f) ↦
          elim (Result-cases (at_most_one (matches organization_id order_id s.tracking_sessions))) [
            | inr (x, g) ↦ absurd (ground arith)
            | inl (session, g) ↦ record {
              found = o;
              changed = o';
              session = session;
              is_stored = e;
              is_owned = ground (arith, eq_iff o.organization_id organization_id);
              is_changed = f;
              capacity = ground arith;
              result = ground arith;
              orders = ground arith;
              counters = ground arith;
              is_active = g;
              closing = elim (Option-cases session) [
                | inl n ↦ none_open n (ground arith) (ground (arith, append-nil o'.events))
                | inr (t, q) ↦ elim (Result-cases (close t)) [
                  | inr (x, c) ↦ absurd (ground arith)
                  | inl (t', c) ↦ one_closed t t' q c (ground arith) (ground arith)
                ]
              ];
            }
          ]
    ]
  ]
