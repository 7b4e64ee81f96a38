-- ===== src/Connectivity/Egress.antt =====
-- src/dispatch_core/connectivity/egress.py: the routes out of an installation, and the metadata of a
-- signed configuration. The digest `sha256(payload).hexdigest()` is a parameter.
use Prim.Native.String.{compare as compare_text}
use Prim.Native.Nat.{Ordering}
use dispatch_core.Shared.{
  ℕ, Bool, true, false, not, ◌&&◌, if◌then◌else◌, ltb, ◌==ℕ◌, ◌==◌, string_eq, String, is_empty,
  Option, none, some, List, [], ◌∷◌,
}
use dispatch_core.Shared.Dict.{Dict, get, put}
use dispatch_core.Domain.Errors.{Result, ok, raise_if, ◌>>◌, value_error, Invalid}
use dispatch_core.Domain.Events.{Instant, Ambient, or_clock}
use dispatch_core.Packs.Data.{ℤ, pos, negsuc}

pub data EgressMode : Type 0 where
  direct http_proxy socks5 wireproxy : EgressMode

abbrev is_direct : EgressMode → Bool
is_direct EgressMode.direct = true
is_direct _ = false

-- `a < b` of two integers
abbrev pub is_below : ℤ → ℤ → Bool
is_below (pos a) (pos b) = ltb a b
is_below (pos a) (negsuc b) = false
is_below (negsuc a) (pos b) = true
is_below (negsuc a) (negsuc b) = ltb b a

-- `a == b` of two integers
abbrev pub is_same : ℤ → ℤ → Bool
is_same (pos a) (pos b) = a ==ℕ b
is_same (negsuc a) (negsuc b) = a ==ℕ b
is_same _ _ = false

pub record EgressRoute : Type 0 where
  pub route_id : String
  pub mode : EgressMode
  pub priority : ℤ
  pub endpoint : Option String
  pub secret_ref : Option String

abbrev is_given : Option String → Bool
is_given none = false
is_given (some _) = true

-- `not text`
abbrev is_missing : Option String → Bool
is_missing none = true
is_missing (some s) = is_empty s

unfoldable pub check_route : EgressRoute → Result EgressRoute
check_route r =
    raise_if (is_empty r.route_id) (value_error Invalid.route_id_required)
    >> raise_if (is_below r.priority (pos 0)) (value_error Invalid.negative_priority)
    >> raise_if (is_direct r.mode && is_given r.endpoint)
        (value_error Invalid.endpoint_of_direct_route)
    >> raise_if (not (is_direct r.mode) && is_missing r.endpoint)
        (value_error Invalid.endpoint_required)
    >> ok r

pub record RouteHealth : Type 0 where
  pub route_id : String
  pub healthy : Bool
  pub checked_at : Instant

-- `{item.route_id: item for item in health}`
unfoldable pub health_by_id : Dict String RouteHealth → List RouteHealth → Dict String RouteHealth
health_by_id d [] = d
health_by_id d (h ∷ hs) = health_by_id (put d h.route_id h) hs

abbrev pub is_candidate : Dict String RouteHealth → EgressRoute → Bool
is_candidate health r = elim (get health r.route_id) [ none ↦ false | some h ↦ h.healthy ]

abbrev precedes_text : String → String → Bool
precedes_text a b = elim (compare_text a b) [ Ordering.lt ↦ true | _ ↦ false ]

-- `(a.priority, a.route_id) < (b.priority, b.route_id)`
abbrev pub precedes : EgressRoute → EgressRoute → Bool
precedes a b =
    if is_same a.priority b.priority
    then precedes_text a.route_id b.route_id
    else is_below a.priority b.priority

-- The least of the routes and `best`; of equals the first.
unfoldable pub min_from : EgressRoute → List EgressRoute → EgressRoute
min_from best [] = best
min_from best (r ∷ rs) = min_from (if precedes r best then r else best) rs

unfoldable pub candidates : Dict String RouteHealth → List EgressRoute → List EgressRoute
candidates health [] = []
candidates health (r ∷ rs) =
    let rest = candidates health rs in if is_candidate health r then r ∷ rest else rest

abbrev pub least : List EgressRoute → Option EgressRoute
least [] = none
least (r ∷ rs) = some (min_from r rs)

-- `EgressPolicy.choose`
unfoldable pub choose : List EgressRoute → List RouteHealth → Option EgressRoute
choose routes health = least (candidates (health_by_id [] health) routes)

pub record SignedConfigEnvelope : Type 0 where
  pub installation_id : String
  pub version : ℤ
  pub issued_at : Instant
  pub expires_at : Instant
  pub payload_sha256 : String
  pub key_id : String
  pub signature : String

unfoldable pub validate_metadata :
    (List ℕ → String)
    → List ℕ
    → String
    → ℤ
    → Option Instant
    → Ambient
    → SignedConfigEnvelope
    → Result (Unit {0})
validate_metadata hexdigest payload expected_installation_id minimum_version now env e =
    let instant : Instant = or_clock now env in
    raise_if (not (e.installation_id == expected_installation_id))
      (value_error Invalid.other_installation)
    >> raise_if (is_below e.version minimum_version) (value_error Invalid.rollback)
    >> raise_if (ltb e.expires_at instant) (value_error Invalid.expired)
    >> raise_if (ltb instant e.issued_at) (value_error Invalid.issued_in_future)
    >> raise_if (not (hexdigest payload == e.payload_sha256)) (value_error Invalid.digest_mismatch)
