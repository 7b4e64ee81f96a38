-- ===== src/Domain/Tracking/Methods.antt =====
-- The methods of `TrackingSession`.
use dispatch_core.Shared.{
  ◌+◌, ◌-◌, Bool, true, false, not, ◌||◌, ltb, ◌==ℕ◌, if◌then◌else◌, String, is_empty, string_eq,
  ◌==◌, is_some_of, Option, none, some, List, [], ◌∷◌, ◌++◌, length, last?, drop, any,
}
use dispatch_core.Domain.Errors.{
  value_error, invalid_transition, Invalid, Refusal, Result, ok, err, raise_if, ◌>>=◌, ◌>>◌,
}
use dispatch_core.Domain.Events.{
  DomainEvent, Ambient, Instant, Payload, text, number, flag, instant, optional, or_clock,
  new_event,
}
use dispatch_core.Domain.Tracking.Data.{
  TrackingPoint, TrackingSession, TrackingStatus, is_active, source_value, is_weak, check_session,
}

-- `_record`
unfoldable pub record_event :
    String → Payload → Option Instant → Ambient → TrackingSession → TrackingSession
unfolding new_event
record_event name payload now env s =
    let at : Instant = or_clock now env in
    let event : DomainEvent =
      new_event s.organization_id "tracking_session" s.id (s.version + 1) name payload (some at)
        env in
    record s { version = s.version + 1; updated_at = at; events = s.events ++ event ∷ [] }

-- The arguments of `TrackingSession.start`.
pub record Start : Type 0 where
  pub session_id : String
  pub organization_id : String
  pub work_order_id : String
  pub executor_id : String
  pub public_token : Option String
  pub location_token : Option String

-- What `start` reads from outside beside its event: the clock for `created_at`, and the results of
-- the two calls of `token_urlsafe(32)`.
pub record Fresh : Type 0 where
  pub created_at : Instant
  pub public_token : String
  pub location_token : String

abbrev pub or_fresh : Option String → String → String
or_fresh none fresh = fresh
or_fresh (some token) fresh = token

abbrev initial : Start → Fresh → TrackingSession
initial a fresh = record {
  id = a.session_id;
  organization_id = a.organization_id;
  work_order_id = a.work_order_id;
  executor_id = a.executor_id;
  public_token = some (or_fresh a.public_token fresh.public_token);
  location_token = some (or_fresh a.location_token fresh.location_token);
  status = TrackingStatus.active;
  points = [];
  point_count = 0;
  version = 0;
  created_at = fresh.created_at;
  updated_at = fresh.created_at;
  events = [];
  persisted_point_count = 0;
}

unfoldable pub start : Start → Option Instant → Fresh → Ambient → Result TrackingSession
unfolding check_session record_event
start a now fresh env = do
  raise_if
      (is_empty a.session_id
        || is_empty a.organization_id
        || is_empty a.work_order_id
        || is_empty a.executor_id)
      (value_error Invalid.session_identity_required)
  let token = or_fresh a.public_token fresh.public_token
  raise_if (is_weak token) (value_error Invalid.bad_public_token)
  let sender_token = or_fresh a.location_token fresh.location_token
  raise_if (is_weak sender_token) (value_error Invalid.bad_location_token)
  raise_if (sender_token == token) (value_error Invalid.equal_tokens)
  session ← check_session (initial a fresh)
  ok (
      record_event "tracking.started"
        (("browser_location", flag true) ∷ ("public_tracking", flag true) ∷ []) now env session)

-- `any(current.source_event_id == id for current in points)`
unfoldable pub has_event : String → List TrackingPoint → Bool
has_event id points = any (λ p. is_some_of p.source_event_id id) points

abbrev pub is_duplicate : Option String → List TrackingPoint → Bool
is_duplicate none points = false
is_duplicate (some id) points = has_event id points

unfoldable pub latest_point : TrackingSession → Option TrackingPoint
latest_point s = last? s.points

-- `self.points and point.captured_at < self.points[-1].captured_at`
abbrev pub is_before : TrackingPoint → Option TrackingPoint → Bool
is_before point none = false
is_before point (some latest) = ltb point.captured_at latest.captured_at

unfoldable pub add_point : TrackingPoint → Ambient → TrackingSession → Result TrackingSession
unfolding record_event
add_point point env s = if is_duplicate point.source_event_id s.points then ok s else (do
  raise_if (not (is_active s.status)) (invalid_transition Refusal.session_inactive)
  raise_if (is_before point (last? s.points)) (value_error Invalid.points_out_of_order)
  ok (
      record_event "tracking.point_recorded"
        (("captured_at", instant point.captured_at)
          ∷ ("source", text (source_value point.source))
          ∷ ("source_event_id", optional point.source_event_id)
          ∷ [])
        (some point.ingested_at) env
        (record s { points = s.points ++ point ∷ []; point_count = s.point_count + 1 })))

unfoldable pub complete : Option Instant → Ambient → TrackingSession → Result TrackingSession
unfolding record_event
complete now env s = do
  raise_if (not (is_active s.status)) (invalid_transition Refusal.session_inactive)
  ok (
      record_event "tracking.completed" (("point_count", number s.point_count) ∷ []) now env
        (record s {
          status = TrackingStatus.completed;
          public_token = none;
          location_token = none;
        }))

unfoldable pub cancel : String → Option Instant → Ambient → TrackingSession → Result TrackingSession
unfolding record_event
cancel reason now env s = do
  raise_if (not (is_active s.status)) (invalid_transition Refusal.session_inactive)
  ok (
      record_event "tracking.cancelled" (("reason", text reason) ∷ []) now env (record s {
        status = TrackingStatus.cancelled;
        public_token = none;
        location_token = none;
      }))

-- The constructor keeps `_persisted_point_count <= point_count`, so the difference is not negative.
-- `points[-pending_count:]` is what stands behind all but the last `pending_count` points.
unfoldable pub pending_points : TrackingSession → Result (List TrackingPoint)
pending_points s =
    let pending_count = s.point_count - s.persisted_point_count in
    if ltb (length s.points) pending_count
    then err (value_error Invalid.too_many_pending)
    else if pending_count ==ℕ 0
    then ok []
    else ok (drop (length s.points - pending_count) s.points)

unfoldable pub pull_events : TrackingSession → List DomainEvent × TrackingSession
pull_events s = (s.events, record s { events = [] })
