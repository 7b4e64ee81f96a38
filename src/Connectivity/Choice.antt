-- ===== src/Connectivity/Choice.antt =====
-- What the choice of a route and the check of a configuration's metadata promise.
use dispatch_core.Shared.{
  ℕ, true, false, ◌≡◌, ◌↔◌, ◌≤◌, refl, sym, inl, inr, String, some, List, [], ◌∷◌, arith, eq_iff,
  Bool-cases, All, string_eq, if◌then◌else◌,
}
use dispatch_core.Shared.Dict.{Dict}
use dispatch_core.Domain.Errors.{ok}
use dispatch_core.Domain.Events.{Instant, Ambient}
use dispatch_core.Packs.Data.{ℤ, pos, negsuc}
use dispatch_core.Connectivity.Egress.{
  EgressRoute, RouteHealth, SignedConfigEnvelope, is_below, is_same, precedes, min_from, candidates,
  is_candidate, least, choose, health_by_id, validate_metadata,
}

is_below_trans : (a b c : ℤ) → is_below a b ≡ false → is_below b c ≡ false → is_below a c ≡ false
is_below_trans (pos a) (pos b) (pos c) h k = ground arith
is_below_trans (pos a) (pos b) (negsuc c) h k = refl
is_below_trans (pos a) (negsuc b) (pos c) h k = absurd (ground arith)
is_below_trans (pos a) (negsuc b) (negsuc c) h k = refl
is_below_trans (negsuc a) (pos b) c h k = absurd (ground arith)
is_below_trans (negsuc a) (negsuc b) (pos c) h k = absurd (ground arith)
is_below_trans (negsuc a) (negsuc b) (negsuc c) h k = ground arith

is_below_refl : (a : ℤ) → is_below a a ≡ false
is_below_refl (pos a) = ground arith
is_below_refl (negsuc a) = ground arith

same_lem : (a b : ℤ) → is_same a b ≡ true → (is_below a b ≡ false) × (is_below b a ≡ false)
same_lem (pos a) (pos b) h = ground arith
same_lem (negsuc a) (negsuc b) h = ground arith
same_lem (pos a) (negsuc b) h = absurd (ground arith)
same_lem (negsuc a) (pos b) h = absurd (ground arith)

is_below_asym : (a b : ℤ) → is_below a b ≡ true → is_below b a ≡ false
is_below_asym (pos a) (pos b) h = ground arith
is_below_asym (negsuc a) (negsuc b) h = ground arith
is_below_asym (pos a) (negsuc b) h = absurd (ground arith)
is_below_asym (negsuc a) (pos b) h = refl

-- A route that comes before another has no greater priority, and one that does not, no lower.
precedes_lem :
    (r b : EgressRoute)
    → ((precedes r b ≡ true) → is_below b.priority r.priority ≡ false)
      × ((precedes r b ≡ false) → is_below r.priority b.priority ≡ false)
precedes_lem r b = elim (Bool-cases (is_same r.priority b.priority)) [
  | inl e ↦ let (left, right) = same_lem r.priority b.priority e in (λ h. right, λ h. left)
  | inr e ↦ rw e (λ h. is_below_asym r.priority b.priority h, λ h. h)
]

-- Neither route of a comparison comes before the one that is kept.
kept-least :
    (r b : EgressRoute)
    → (is_below b.priority (if precedes r b then r else b).priority ≡ false)
      × (is_below r.priority (if precedes r b then r else b).priority ≡ false)
kept-least r b = elim (Bool-cases (precedes r b)) [
  | inl e ↦ rw e ((precedes_lem r b).0 e, is_below_refl r.priority)
  | inr e ↦ rw e (is_below_refl b.priority, (precedes_lem r b).1 e)
]

-- The least has no greater priority than any route it was chosen among.
min_from-least :
    (b : EgressRoute) (rs : List EgressRoute)
    → (is_below b.priority (min_from b rs).priority ≡ false)
      × All (λ r. is_below r.priority (min_from b rs).priority ≡ false) rs
unfolding min_from
min_from-least b [] = (is_below_refl b.priority, tt)
min_from-least b (r ∷ rs) =
    let kept = if precedes r b then r else b in
    let (first, others) = min_from-least kept rs in
    let (left, right) = kept-least r b in
    (
      is_below_trans b.priority kept.priority (min_from kept rs).priority left first,
      (is_below_trans r.priority kept.priority (min_from kept rs).priority right first, others),
    )

-- A property of `best` and of all the routes is one of the least.
min_from-All :
    (P : EgressRoute → Type 0) (b : EgressRoute) (rs : List EgressRoute)
    → P b
    → All P rs
    → P (min_from b rs)
unfolding min_from
min_from-All P b [] p ps = p
min_from-All P b (r ∷ rs) p ps = elim (Bool-cases (precedes r b)) [
  | inl e ↦ rw e (min_from-All P r rs ps.0 ps.1)
  | inr e ↦ rw e (min_from-All P b rs p ps.1)
]

-- Every candidate is healthy.
candidates-All :
    (health : Dict String RouteHealth) (rs : List EgressRoute)
    → All (λ r. is_candidate health r ≡ true) (candidates health rs)
unfolding candidates
candidates-All health [] = tt
candidates-All health (r ∷ rs) = elim (Bool-cases (is_candidate health r)) [
  | inl e ↦ rw e (e, candidates-All health rs)
  | inr e ↦ rw e (candidates-All health rs)
]

-- What holds of all the candidates, said of the routes.
All-of_candidates :
    (P : EgressRoute → Type 0) (health : Dict String RouteHealth) (rs : List EgressRoute)
    → All P (candidates health rs)
    → All (λ r. is_candidate health r ≡ true → P r) rs
unfolding candidates
All-of_candidates P health [] h = tt
All-of_candidates P health (r ∷ rs) h = elim (Bool-cases (is_candidate health r)) [
  | inl e ↦ let (p, ps) = (rw e at h) in (λ c. p, All-of_candidates P health rs ps)
  | inr e ↦ (λ c. absurd (ground arith), All-of_candidates P health rs (rw e at h))
]

-- A healthy route such that no healthy route has a lower priority number.
pub record IsBest (health : Dict String RouteHealth) (routes : List EgressRoute) (r : EgressRoute)
    : Type 0 where
  pub is_healthy : is_candidate health r ≡ true
  pub is_least :
      All (λ x. is_candidate health x ≡ true → is_below x.priority r.priority ≡ false) routes

least-IsBest :
    (health : Dict String RouteHealth) (routes cs : List EgressRoute) {r : EgressRoute}
    → candidates health routes ≡ cs
    → least cs ≡ some r
    → IsBest health routes r
least-IsBest health routes [] e h = absurd (ground arith)
least-IsBest health routes (c ∷ cs) {r} e h =
    let is_least = min_from-least c cs in
    let healthy = (rw e at (candidates-All health routes)) in
    let same : min_from c cs ≡ r = ground arith in
    rw (sym same) (record {
      is_healthy = min_from-All (λ x. is_candidate health x ≡ true) c cs healthy.0 healthy.1;
      is_least =
          All-of_candidates (λ x. is_below x.priority (min_from c cs).priority ≡ false) health
            routes (rw e is_least);
    })

-- The route that `choose` gives is healthy by the last report on it, and no healthy route comes with a
-- lower priority number.
pub choose-IsBest :
    (routes : List EgressRoute) (health : List RouteHealth) {r : EgressRoute}
    → choose routes health ≡ some r
    → IsBest (health_by_id [] health) routes r
unfolding choose
choose-IsBest routes health h =
    least-IsBest (health_by_id [] health) routes (candidates (health_by_id [] health) routes) refl h

-- Whether the metadata of an envelope is accepted.
pub record IsAccepted (hexdigest : List ℕ → String) (payload : List ℕ) (installation : String)
    (minimum : ℤ) (instant : Instant) (e : SignedConfigEnvelope) : Type 0 where
  pub own : e.installation_id ≡ installation
  pub current : is_below e.version minimum ≡ false
  pub unexpired : instant ≤ e.expires_at
  pub issued : e.issued_at ≤ instant
  pub digest : hexdigest payload ≡ e.payload_sha256

-- The metadata of an envelope passes at an instant exactly if the envelope is of this installation, of
-- at least the minimum version, issued by then and not expired, and has the payload's digest.
pub validate_metadata-IsAccepted :
    (hexdigest : List ℕ → String) (payload : List ℕ) (installation : String) (minimum : ℤ)
    (instant : Instant) (env : Ambient) (e : SignedConfigEnvelope)
    → (validate_metadata hexdigest payload installation minimum (some instant) env e ≡ ok tt)
      ↔ IsAccepted hexdigest payload installation minimum instant e
unfolding validate_metadata
validate_metadata-IsAccepted hexdigest payload installation minimum instant env e =
    ground
      (arith, eq_iff e.installation_id installation, eq_iff (hexdigest payload) e.payload_sha256)
