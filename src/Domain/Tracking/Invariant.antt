-- ===== src/Domain/Tracking/Invariant.antt =====
-- What holds of every tracking session that the methods produce.
use dispatch_core.Shared.{
  ◌≤◌, false, ◌≡◌, ◌≢◌, inl, inr, String, eq_iff, is_some_of, is_some_of_iff, Option, none, some,
  List, [], ◌∷◌, ◌++◌, length, length-append, last?, arith, Option-cases,
}
use dispatch_core.Domain.Errors.{ok}
use dispatch_core.Domain.Events.{Ambient, Instant}
use dispatch_core.Domain.Tracking.Data.{TrackingPoint, TrackingSession, TrackingStatus, is_weak}
use dispatch_core.Domain.Tracking.Methods.{
  Start, Fresh, start, add_point, complete, cancel, has_event, is_duplicate, is_before, or_fresh,
}

-- Captured one after the other.
abbrev pub IsOrdered : List TrackingPoint → Type 0
IsOrdered [] = Unit
IsOrdered (p ∷ []) = Unit
IsOrdered (p ∷ q ∷ ps) = (p.captured_at ≤ q.captured_at) × IsOrdered (q ∷ ps)

-- No source event stands twice.
abbrev pub HasDistinctEvents : List TrackingPoint → Type 0
HasDistinctEvents [] = Unit
HasDistinctEvents (p ∷ ps) = (is_duplicate p.source_event_id ps ≡ false) × HasDistinctEvents ps

-- An open session has two different strong tokens, and a closed one has none.
abbrev pub HasTokens : TrackingStatus → Option String → Option String → Type 0
HasTokens TrackingStatus.active (some a) (some b) =
    (a ≢ b) × (is_weak a ≡ false) × (is_weak b ≡ false)
HasTokens TrackingStatus.active _ _ = ⊥
HasTokens _ a b = (a ≡ none) × (b ≡ none)

pub record IsValid (s : TrackingSession) : Type 0 where
  pub loaded : length s.points ≤ s.point_count
  pub persisted : s.persisted_point_count ≤ s.point_count
  pub ordered : IsOrdered s.points
  pub distinct : HasDistinctEvents s.points
  pub tokens : HasTokens s.status s.public_token s.location_token

append-IsOrdered :
    (ps : List TrackingPoint) (p : TrackingPoint)
    → is_before p (last? ps) ≡ false
    → IsOrdered ps
    → IsOrdered (ps ++ p ∷ [])
append-IsOrdered [] p h o = tt
append-IsOrdered (q ∷ []) p h o = (ground arith, tt)
append-IsOrdered (q ∷ r ∷ ps) p h o = (o.0, append-IsOrdered (r ∷ ps) p h o.1)

has_event-append :
    (id : String) (ps : List TrackingPoint) (p : TrackingPoint)
    → has_event id ps ≡ false
    → is_some_of p.source_event_id id ≡ false
    → has_event id (ps ++ p ∷ []) ≡ false
unfolding has_event
has_event-append id [] p h k = ground arith
has_event-append id (q ∷ ps) p h k = ground (arith, has_event-append id ps p)

-- A point whose event is not seen in `q ∷ ps` differs from `q`, seen from either side.
is_duplicate-append :
    (q p : TrackingPoint) (ps : List TrackingPoint)
    → is_duplicate p.source_event_id (q ∷ ps) ≡ false
    → is_duplicate q.source_event_id ps ≡ false
    → is_duplicate q.source_event_id (ps ++ p ∷ []) ≡ false
is_duplicate-append q p ps h k = elim (Option-cases q.source_event_id) [
  | inl e ↦ rw e
  | inr (i, e) ↦ elim (Option-cases p.source_event_id) [
    | inl f ↦ rw e (has_event-append i ps p (ground arith) (unfold is_some_of in rw f))
    | inr (j, f) ↦ rw e (
        has_event-append i ps p (ground arith) (
          unfold has_event in
          ground (arith, is_some_of_iff q.source_event_id j, is_some_of_iff p.source_event_id i)))
  ]
]

is_duplicate-tail :
    (id : Option String) (q : TrackingPoint) (ps : List TrackingPoint)
    → is_duplicate id (q ∷ ps) ≡ false
    → is_duplicate id ps ≡ false
unfolding has_event
is_duplicate-tail id q ps h = ground arith

append-HasDistinctEvents :
    (ps : List TrackingPoint) (p : TrackingPoint)
    → is_duplicate p.source_event_id ps ≡ false
    → HasDistinctEvents ps
    → HasDistinctEvents (ps ++ p ∷ [])
append-HasDistinctEvents [] p h d = (unfold has_event in ground arith, tt)
append-HasDistinctEvents (q ∷ ps) p h d = (
  is_duplicate-append q p ps h d.0,
  append-HasDistinctEvents ps p (is_duplicate-tail p.source_event_id q ps h) d.1,
)

-- A session that `start` returns is valid.
pub start-IsValid :
    (a : Start) (now : Option Instant) (fresh : Fresh) (env : Ambient) {s : TrackingSession}
    → start a now fresh env ≡ ok s
    → IsValid s
unfolding start
start-IsValid a now fresh env h = ground (
  arith,
  eq_iff (or_fresh a.location_token fresh.location_token)
      (or_fresh a.public_token fresh.public_token),
)

-- The methods of a session that was started.
module _ (env : Ambient) (s : TrackingSession) {t : TrackingSession} where
  -- A session that was valid is valid after a point was added, whether the point is new or
  -- repeated.
  pub add_point-IsValid : (p : TrackingPoint) → IsValid s → add_point p env s ≡ ok t → IsValid t
  unfolding add_point
  add_point-IsValid p v h = ground (
    arith,
    append-IsOrdered s.points p,
    append-HasDistinctEvents s.points p,
    length-append s.points (p ∷ []),
  )

  pub complete-IsValid : (now : Option Instant) → IsValid s → complete now env s ≡ ok t → IsValid t
  unfolding complete
  complete-IsValid now v h = ground arith

  pub cancel-IsValid :
      (reason : String) (now : Option Instant)
      → IsValid s
      → cancel reason now env s ≡ ok t
      → IsValid t
  unfolding cancel
  cancel-IsValid reason now v h = ground arith
