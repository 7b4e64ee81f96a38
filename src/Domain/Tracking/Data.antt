-- ===== src/Domain/Tracking/Data.antt =====
-- The enumerations and data classes of tracking.py, with what their constructors check.
use dispatch_core.Shared.{
  ℕ, Bool, true, false, not, ◌&&◌, ◌||◌, leb, ltb, ◌==ℕ◌, if◌then◌else◌, String, chars, is_empty,
  strip, string_eq, is_some_of, Option, none, some, List, length,
}
use dispatch_core.Domain.Errors.{value_error, Invalid, Result, ok, raise_if, ◌>>◌}
use dispatch_core.Domain.Events.{DomainEvent, Instant}
use dispatch_core.Domain.Floats.{Float, is_within, is_accuracy}

pub data TrackingStatus : Type 0 where
  active completed cancelled : TrackingStatus

abbrev pub is_active : TrackingStatus → Bool
is_active TrackingStatus.active = true
is_active _ = false

pub data LocationSource : Type 0 where
  telegram max web mobile import_file : LocationSource

-- `StrEnum.value` of a source
abbrev pub source_value : LocationSource → String
source_value LocationSource.telegram = "telegram"
source_value LocationSource.max = "max"
source_value LocationSource.web = "web"
source_value LocationSource.mobile = "mobile"
source_value LocationSource.import_file = "import"

pub record TrackingPoint : Type 0 where
  pub latitude : Float
  pub longitude : Float
  pub captured_at : Instant
  pub ingested_at : Instant
  pub source : LocationSource
  pub accuracy_m : Option Float
  pub source_event_id : Option String

abbrev bad_accuracy : Option Float → Bool
bad_accuracy none = false
bad_accuracy (some a) = not (is_accuracy a)

abbrev blank : Option String → Bool
blank none = false
blank (some s) = is_empty (strip s)

-- `TrackingPoint.__post_init__`
unfoldable pub check_point : TrackingPoint → Result TrackingPoint
check_point p = do
  raise_if (not (is_within 90 p.latitude)) (value_error Invalid.bad_latitude)
  raise_if (not (is_within 180 p.longitude)) (value_error Invalid.bad_longitude)
  raise_if (bad_accuracy p.accuracy_m) (value_error Invalid.bad_accuracy)
  raise_if (blank p.source_event_id) (value_error Invalid.blank_source_event)
  ok p

-- `events` is `_events`, and `persisted_point_count` is `_persisted_point_count`.
pub record TrackingSession : Type 0 where
  pub id : String
  pub organization_id : String
  pub work_order_id : String
  pub executor_id : String
  pub public_token : Option String
  pub location_token : Option String
  pub status : TrackingStatus
  pub points : List TrackingPoint
  pub point_count : ℕ
  pub version : ℕ
  pub created_at : Instant
  pub updated_at : Instant
  pub events : List DomainEvent
  pub persisted_point_count : ℕ

-- `len(token) < 43 or not token.strip()`
unfoldable pub is_weak : String → Bool
is_weak token = ltb (length (chars token)) 43 || is_empty (strip token)

abbrev pub is_weak_option : Option String → Bool
is_weak_option none = false
is_weak_option (some token) = is_weak token

-- `a is not None and a == b`
abbrev pub are_equal : Option String → Option String → Bool
are_equal none b = false
are_equal (some a) b = is_some_of b a

abbrev with_count : TrackingSession → TrackingSession
with_count s =
    if ltb 0 (length s.points) && s.point_count ==ℕ 0
    then record s { point_count = length s.points }
    else s

-- `TrackingSession.__post_init__`
unfoldable pub check_session : TrackingSession → Result TrackingSession
check_session given = do
  let s = with_count given
  raise_if (ltb s.point_count (length s.points)) (value_error Invalid.bad_point_count)
  raise_if (not (leb s.persisted_point_count s.point_count))
      (value_error Invalid.bad_persisted_count)
  raise_if (is_weak_option s.public_token) (value_error Invalid.bad_public_token)
  raise_if (is_weak_option s.location_token) (value_error Invalid.bad_location_token)
  raise_if (are_equal s.public_token s.location_token) (value_error Invalid.equal_tokens)
  ok s
