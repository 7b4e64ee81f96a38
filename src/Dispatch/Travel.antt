-- ===== src/Dispatch/Travel.antt =====
-- What `start_travel` does to the store.
use dispatch_core.Shared.{
  ◌≡◌, ◌++◌, String, Option, none, some, [], arith, eq_iff, string_eq, pair_eq, Option-cases, inl,
  inr,
}
use dispatch_core.Shared.Dict.{get, put, values}
use dispatch_core.Domain.Errors.{ok, err, Error, Result-cases}
use dispatch_core.Domain.Events.{Ambient}
use dispatch_core.Domain.WorkOrder
use dispatch_core.Domain.WorkOrder.{WorkOrder}
use dispatch_core.Domain.Tracking
use dispatch_core.Domain.Tracking.{TrackingSession, Fresh}
use dispatch_core.Application.Service.{start_travel, travel_start}
use dispatch_core.Infrastructure.Memory.{
  MemoryStore, in_memory, get_order, save_order, save_session, add_events, commit, check_versions,
  check_capacity, check_executor_capacity, written,
}
use dispatch_core.Dispatch.Closing.{put_session}

-- The order went on its way, and a new session was opened for it.
pub record Travels (organization_id order_id executor_id : String) (session_id : Option String)
    (uuid : String) (fresh : Fresh) (env env' : Ambient) (s : MemoryStore)
    (answer : WorkOrder × TrackingSession) (s' : MemoryStore) : Type 0 where
  pub found : WorkOrder
  pub changed : WorkOrder
  pub session : TrackingSession
  pub is_stored : get s.orders order_id ≡ some found
  pub is_owned : found.organization_id ≡ organization_id
  pub is_changed : WorkOrder.start_travel executor_id none env found ≡ ok changed
  pub is_started :
      Tracking.start
        (travel_start session_id uuid organization_id changed.id executor_id)
        none
        fresh
        env'
      ≡ ok session
  pub is_new : get s.tracking_sessions (session.organization_id, session.id) ≡ none
  pub capacity :
      check_capacity [] (values (put s.orders changed.id (record changed { events = [] }))) ≡ ok tt
  pub result : answer ≡ (record changed { events = [] }, record session { events = [] })
  pub store : s' ≡ record s {
    orders = put s.orders changed.id (record changed { events = [] });
    tracking_sessions = put_session session s;
    outbox_events = s.outbox_events ++ (changed.events ++ session.events);
  }

module _ (organization_id order_id executor_id : String) (session_id : Option String)
    (uuid : String) (fresh : Fresh) (env env' : Ambient) (s : MemoryStore) where
  -- A call that raises leaves the store alone.
  pub start_travel-err :
      {e : Error} {s' : MemoryStore}
      → start_travel in_memory organization_id order_id executor_id session_id uuid fresh env env' s
        ≡ (err e, s')
      → s' ≡ s
  unfolding start_travel get_order save_order save_session add_events commit
  start_travel-err h = ground arith

  -- A call of `start_travel` that succeeds found the order in the organization, moved it on to
  -- travelling, started a session that was not stored before, kept the orders within the executors'
  -- capacity, stored both without pending events, and appended the order's and then the session's
  -- events to the outbox.
  pub start_travel-ok :
      {answer : WorkOrder × TrackingSession} {s' : MemoryStore}
      → start_travel in_memory organization_id order_id executor_id session_id uuid fresh env env' s
        ≡ (ok answer, s')
      → Travels organization_id order_id executor_id session_id uuid fresh env env' s answer s'
  unfolding start_travel get_order save_order save_session add_events commit written
      check_executor_capacity check_versions put
  start_travel-ok h = elim (Option-cases (get s.orders order_id)) [
    | inl e ↦ absurd (ground arith)
    | inr (o, e) ↦ elim (Result-cases (WorkOrder.start_travel executor_id none env o)) [
      | inr (x, f) ↦ absurd (ground arith)
      | inl (o', f) ↦
          elim (Result-cases (
            Tracking.start (travel_start session_id uuid organization_id o'.id executor_id) none
              fresh env')) [
                | inr (x, g) ↦ absurd (ground arith)
                | inl (t, g) ↦ record {
                  found = o;
                  changed = o';
                  session = t;
                  is_stored = e;
                  is_owned = ground (arith, eq_iff o.organization_id organization_id);
                  is_changed = f;
                  is_started = g;
                  is_new = ground arith;
                  capacity = ground arith;
                  result = ground arith;
                  store = ground arith;
                }
              ]
    ]
  ]
