-- ===== src/Tests/Tracking.antt =====
-- Tracking sessions.
use dispatch_core.Shared.{◌≡◌, refl, none, [], ◌∷◌, arith, eq_iff, is_some_of, strip}
use dispatch_core.Domain.Errors.{ok}
use dispatch_core.Domain.Tracking.{
  TrackingSession, start, add_point, pending_points, has_event, is_weak,
}
use dispatch_core.Domain.Tracking.Invariant.{IsValid, start-IsValid, add_point-IsValid}
use dispatch_core.Domain.Tracking.Points.{pending_points-add_point, add_point-repeat}
use dispatch_core.Tests.Data.{
  env, session, start_data, fresh, point_at, public_token, location_token,
}

started : (t : TrackingSession) × (start start_data none fresh env ≡ ok t)
unfolding start is_weak is_some_of strip
started = (_, refl)

start-IsValid_example : IsValid started.0
start-IsValid_example = start-IsValid start_data none fresh env {s = started.0} started.1

session-IsValid : IsValid session
unfolding is_weak strip
session-IsValid = record {
  loaded = omega arith;
  persisted = omega arith;
  ordered = tt;
  distinct = tt;
  tokens = (ground (arith, eq_iff public_token location_token), refl, refl);
}

one_point : (t : TrackingSession) × (add_point (point_at "e-1") env session ≡ ok t)
unfolding add_point has_event
one_point = (_, refl)

add_point-IsValid_example : IsValid one_point.0
add_point-IsValid_example =
    add_point-IsValid env session {t = one_point.0} (point_at "e-1") session-IsValid one_point.1

-- The point that was added is the one that waits.
pending_points-add_point_example : pending_points one_point.0 ≡ ok (point_at "e-1" ∷ [])
unfolding has_event pending_points
pending_points-add_point_example =
    pending_points-add_point (point_at "e-1") env session {t = one_point.0} {waiting = []}
      session-IsValid refl one_point.1 refl

add_point-repeat_example : add_point (point_at "e-1") env one_point.0 ≡ ok one_point.0
add_point-repeat_example =
    add_point-repeat (point_at "e-1") (point_at "e-1") env env "e-1" session one_point.0
      {t = one_point.0} refl refl one_point.1 refl
