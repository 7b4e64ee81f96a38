-- ===== src/Dispatch/Locations.antt =====
-- What `record_location` does to the store.
use dispatch_core.Shared.{
  ◌≡◌, ◌++◌, String, some, [], arith, eq_iff, string_eq, pair_eq, Option-cases, inl, inr,
}
use dispatch_core.Shared.Dict.{get, put}
use dispatch_core.Domain.Errors.{ok, err, Error, Result-cases}
use dispatch_core.Domain.Events.{Ambient, Instant}
use dispatch_core.Domain.Tracking
use dispatch_core.Domain.Tracking.{TrackingSession, TrackingPoint}
use dispatch_core.Application.Service.{record_location, Location, point_of}
use dispatch_core.Infrastructure.Memory.{
  MemoryStore, in_memory, get_session, save_session, add_events, commit, check_executor_capacity,
  written,
}
use dispatch_core.Dispatch.Closing.{put_session}

-- The executor's session took the point, and was written with its events.
pub record Locates (organization_id executor_id session_id : String) (a : Location) (now : Instant)
    (env : Ambient) (s : MemoryStore) (session : TrackingSession) (s' : MemoryStore) : Type 0 where
  pub old : TrackingSession
  pub new : TrackingSession
  pub is_stored : get s.tracking_sessions (organization_id, session_id) ≡ some old
  pub is_executor : old.executor_id ≡ executor_id
  pub is_sound :
      Tracking.check_point (point_of a now (Tracking.latest_point old))
      ≡ ok (point_of a now (Tracking.latest_point old))
  pub is_added : Tracking.add_point (point_of a now (Tracking.latest_point old)) env old ≡ ok new
  pub result : session ≡ record new { events = [] }
  pub store : s' ≡ record s {
    tracking_sessions = put_session new s;
    outbox_events = s.outbox_events ++ new.events;
  }

check_point-id : (p : TrackingPoint) {q : TrackingPoint} → Tracking.check_point p ≡ ok q → q ≡ p
unfolding Tracking.check_point
check_point-id p h = ground arith

module _ (organization_id executor_id session_id : String) (a : Location) (now : Instant)
    (env : Ambient) (s : MemoryStore) where
  -- A call that raises leaves the store alone.
  pub record_location-err :
      {e : Error} {s' : MemoryStore}
      → record_location in_memory organization_id executor_id session_id a now env s ≡ (err e, s')
      → s' ≡ s
  unfolding record_location get_session save_session add_events commit
  record_location-err h = ground arith

  -- A call of `record_location` that succeeds found the session stored for the organization with
  -- this executor, made a sound point of the reading and the present instant, added it, stored the
  -- session without pending events, appended the session's events to the outbox, and touched
  -- nothing else.
  pub record_location-ok :
      {session : TrackingSession} {s' : MemoryStore}
      → record_location in_memory organization_id executor_id session_id a now env s
        ≡ (ok session, s')
      → Locates organization_id executor_id session_id a now env s session s'
  unfolding record_location get_session save_session add_events commit written
      check_executor_capacity put
  record_location-ok h =
      elim (Option-cases (get s.tracking_sessions (organization_id, session_id))) [
        | inl e ↦ absurd (ground arith)
        | inr (t, e) ↦
            elim (Result-cases (Tracking.check_point (point_of a now (Tracking.latest_point t)))) [
              | inr (x, f) ↦ absurd (ground arith)
              | inl (p, f) ↦
                  let same = check_point-id (point_of a now (Tracking.latest_point t)) f in
                  elim (Result-cases (Tracking.add_point p env t)) [
                    | inr (x, g) ↦ absurd (ground arith)
                    | inl (t', g) ↦ record {
                      old = t;
                      new = t';
                      is_stored = e;
                      is_executor = ground (arith, eq_iff t.executor_id executor_id);
                      is_sound = cc;
                      is_added = cc;
                      result = ground arith;
                      store = ground arith;
                    }
                  ]
            ]
      ]
