-- ===== src/Domain/Tracking/Points.antt =====
-- What adding points does, and which points still wait to be stored.
use dispatch_core.Shared.{
  ℕ, zero, suc, ◌+◌, ◌-◌, ◌≤◌, ◌≡◌, inl, inr, refl, true, false, ◌==ℕ◌, String, some, List, [], ◌∷◌,
  ◌++◌, length, length-append, last?-append, drop, arith, Bool-cases, is_some_of_iff, sym, ◌∙◌,
}
use dispatch_core.Domain.Errors.{Result, ok}
use dispatch_core.Domain.Events.{Ambient}
use dispatch_core.Domain.Tracking.Data.{TrackingPoint, TrackingSession}
use dispatch_core.Domain.Tracking.Methods.{
  add_point, has_event, is_duplicate, pending_points, latest_point,
}
use dispatch_core.Domain.Tracking.Invariant.{IsValid}

drop_append_before :
    (n : ℕ) (xs ys : List TrackingPoint) → n ≤ length xs → drop n (xs ++ ys) ≡ drop n xs ++ ys
drop_append_before zero xs ys h = refl
drop_append_before (suc n) [] ys h = absurd (omega arith)
drop_append_before (suc n) (x ∷ xs) ys h = drop_append_before n xs ys (omega arith)

drop_all : (xs : List TrackingPoint) → drop (length xs) xs ≡ []
drop_all [] = refl
drop_all (x ∷ xs) = drop_all xs

-- The points that wait, without the test for none.
pending_points_lem :
    (s : TrackingSession)
    → s.point_count - s.persisted_point_count ≤ length s.points
    → pending_points s
      ≡ ok (drop (length s.points - (s.point_count - s.persisted_point_count)) s.points)
unfolding pending_points
pending_points_lem s h = elim (Bool-cases ((s.point_count - s.persisted_point_count) ==ℕ 0)) [
  | inl e ↦
      let same : length s.points - (s.point_count - s.persisted_point_count) ≡ length s.points =
        ground arith in
      rw (same, drop_all s.points) (ground arith)
  | inr e ↦ ground arith
]

-- What `add_point` writes for a new point.
add_point_writes :
    (p : TrackingPoint) (env : Ambient) (s : TrackingSession) {t : TrackingSession}
    → is_duplicate p.source_event_id s.points ≡ false
    → add_point p env s ≡ ok t
    → (t.points ≡ s.points ++ p ∷ [])
      × (t.point_count ≡ s.point_count + 1)
      × (t.persisted_point_count ≡ s.persisted_point_count)
unfolding add_point
add_point_writes p env s new h = ground arith

pending-le_of_ok :
    (s : TrackingSession) {waiting : List TrackingPoint}
    → pending_points s ≡ ok waiting
    → s.point_count - s.persisted_point_count ≤ length s.points
unfolding pending_points
pending-le_of_ok s h = ground arith

ok_injective : {A : Type 0} {a b : A} → ◌≡◌ {A = Result A} (ok a) (ok b) → a ≡ b
ok_injective h = cc

-- If a point whose source event is new is added to a valid session, the points that wait to be
-- persisted are those that waited before, followed by it.
pub pending_points-add_point :
    (p : TrackingPoint) (env : Ambient) (s : TrackingSession) {t : TrackingSession}
    {waiting : List TrackingPoint}
    → IsValid s
    → is_duplicate p.source_event_id s.points ≡ false
    → add_point p env s ≡ ok t
    → pending_points s ≡ ok waiting
    → pending_points t ≡ ok (waiting ++ p ∷ [])
pending_points-add_point p env s {t} {waiting} v new h w =
    let (points, count, stored) = add_point_writes p env s new h in
    let room = pending-le_of_ok s w in
    let size = length-append s.points (p ∷ []) in
    let same : waiting
        ≡ drop (length s.points - (s.point_count - s.persisted_point_count)) s.points =
      ok_injective (sym w ∙ pending_points_lem s room) in
    let known : IsValid s = v in
    let le : t.point_count - t.persisted_point_count ≤ length t.points =
      rw (points, count, stored, size) (omega (arith, known.persisted)) in
    let index : length (s.points ++ p ∷ []) - (s.point_count + 1 - s.persisted_point_count)
        ≡ length s.points - (s.point_count - s.persisted_point_count) =
      rw size (omega (arith, known.persisted)) in
    rw (
      pending_points_lem t le,
      points,
      count,
      stored,
      index,
      same,
      drop_append_before (length s.points - (s.point_count - s.persisted_point_count)) s.points
          (p ∷ []) (omega arith),
    )

-- Adding a point that succeeds makes it the latest, unless its source event is known.
pub latest_point-add_point :
    (p : TrackingPoint) (env : Ambient) (s : TrackingSession) {t : TrackingSession}
    → is_duplicate p.source_event_id s.points ≡ false
    → add_point p env s ≡ ok t
    → latest_point t ≡ some p
unfolding add_point latest_point
latest_point-add_point p env s new h = ground (arith, last?-append s.points p)

has_event_last :
    (ps : List TrackingPoint) (p : TrackingPoint) (id : String)
    → p.source_event_id ≡ some id
    → has_event id (ps ++ p ∷ []) ≡ true
unfolding has_event
has_event_last [] p id e = ground (arith, is_some_of_iff p.source_event_id id)
has_event_last (q ∷ ps) p id e = ground (arith, has_event_last ps p id)

-- Once a point with a source event was added, adding a point with that event succeeds and changes
-- nothing, in every session that still holds the points, whatever its status.
pub add_point-repeat :
    (p q : TrackingPoint) (env env' : Ambient) (id : String) (s u : TrackingSession)
    {t : TrackingSession}
    → p.source_event_id ≡ some id
    → q.source_event_id ≡ some id
    → add_point p env s ≡ ok t
    → u.points ≡ t.points
    → add_point q env' u ≡ ok u
unfolding add_point
add_point-repeat p q env env' id s u e f h same = ground (arith, has_event_last s.points p id)
