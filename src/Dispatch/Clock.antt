-- ===== src/Dispatch/Clock.antt =====
-- When `record_location` hands a point to the session that stands before the latest one.
use dispatch_core.Shared.{◌<◌, ◌≡◌, ◌↔◌, true, some, arith}
use dispatch_core.Domain.Events.{Instant}
use dispatch_core.Domain.Tracking.{TrackingPoint, is_before}
use dispatch_core.Application.Service.{Location, point_of, observed_at, or_now}

-- The point `record_location` makes when there is a latest point stands before it exactly if both
-- the present instant and the captured instant of the reading (the present, if it has none) are
-- earlier than the latest point's.
pub observed_at-is_before :
    (a : Location) (now : Instant) (latest : TrackingPoint)
    → (is_before (point_of a now (some latest)) (some latest) ≡ true)
      ↔ ((now < latest.captured_at) × (or_now a.captured_at now < latest.captured_at))
unfolding observed_at
observed_at-is_before a now latest = ground arith
