-- ===== src/Interleaving/Clock.antt =====
-- The correction of a reading's time by the asynchronous service.
use dispatch_core.Shared.{◌≡◌, ◌≢◌, false, Option, none, some, last?, arith}
use dispatch_core.Domain.Errors.{err, value_error, Invalid}
use dispatch_core.Domain.Events.{Ambient, Instant}
use dispatch_core.Domain.Tracking
use dispatch_core.Domain.Tracking.{TrackingSession, TrackingPoint, is_before, is_duplicate}
use dispatch_core.Application.AsyncService.{point_of, observed_at}
use dispatch_core.Application.Service.{Location}

corrected :
    (a : Location) (now : Instant) (latest : Option TrackingPoint)
    → is_before (point_of a now latest) latest ≡ false
unfolding observed_at
corrected a now none = ground arith
corrected a now (some p) = ground arith

-- Whatever the clocks say, the session never refuses the point that `record_location` makes of a reading
-- for standing before its latest point.
pub add_point-point_of :
    (a : Location) (now : Instant) (env : Ambient) (t : TrackingSession)
    → Tracking.add_point (point_of a now (Tracking.latest_point t)) env t
      ≢ err (value_error Invalid.points_out_of_order)
unfolding Tracking.add_point Tracking.latest_point
add_point-point_of a now env t h = ground (arith, corrected a now (last? t.points))
