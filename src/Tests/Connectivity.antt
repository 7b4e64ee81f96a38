-- ===== src/Tests/Connectivity.antt =====
-- A choice among three routes, and the metadata of one configuration.
use dispatch_core.Shared.{
  ℕ, true, false, ◌≡◌, ◌↔◌, refl, String, none, some, List, [], ◌∷◌, string_eq,
}
use dispatch_core.Shared.Dict.{get, put}
use dispatch_core.Domain.Errors.{ok}
use dispatch_core.Packs.Data.{pos}
use dispatch_core.Connectivity.Egress.{
  EgressRoute, EgressMode, RouteHealth, SignedConfigEnvelope, choose, health_by_id, candidates,
  min_from, validate_metadata,
}
use dispatch_core.Connectivity.Choice.{
  IsBest, choose-IsBest, IsAccepted, validate_metadata-IsAccepted,
}
use dispatch_core.Tests.Data.{env}

abbrev proxy : String → ℕ → EgressRoute
proxy id n = record {
  route_id = id;
  mode = EgressMode.socks5;
  priority = pos n;
  endpoint = some "proxy";
  secret_ref = none;
}

abbrev routes : List EgressRoute
routes = proxy "c" 2 ∷ proxy "a" 1 ∷ proxy "b" 2 ∷ []

abbrev report_on : String → RouteHealth
report_on id = record { route_id = id; healthy = true; checked_at = 5 }

abbrev down : String → RouteHealth
down id = record { route_id = id; healthy = false; checked_at = 5 }

abbrev health : List RouteHealth
health = report_on "b" ∷ report_on "a" ∷ report_on "c" ∷ down "a" ∷ []

-- The first route is down by its last report, and of the others the text decides.
b_is_chosen : choose routes health ≡ some (proxy "b" 2)
unfolding choose health_by_id candidates min_from get put
b_is_chosen = refl

choose-IsBest_example : IsBest (health_by_id [] health) routes (proxy "b" 2)
choose-IsBest_example = choose-IsBest routes health b_is_chosen

abbrev hexdigest : List ℕ → String
hexdigest [] = "e3b0"
hexdigest (x ∷ xs) = "9f86"

abbrev envelope : SignedConfigEnvelope
envelope = record {
  installation_id = "here";
  version = pos 3;
  issued_at = 10;
  expires_at = 20;
  payload_sha256 = "9f86";
  key_id = "k";
  signature = "s";
}

validate_metadata-IsAccepted_example :
    (validate_metadata hexdigest (1 ∷ []) "here" (pos 2) (some 15) env envelope ≡ ok tt)
    ↔ IsAccepted hexdigest (1 ∷ []) "here" (pos 2) 15 envelope
validate_metadata-IsAccepted_example =
    validate_metadata-IsAccepted hexdigest (1 ∷ []) "here" (pos 2) 15 env envelope

envelope_passes : validate_metadata hexdigest (1 ∷ []) "here" (pos 2) (some 15) env envelope ≡ ok tt
unfolding validate_metadata
envelope_passes = refl
