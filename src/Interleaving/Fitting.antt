-- ===== src/Interleaving/Fitting.antt =====
-- What a call stages fits, so that its commit lets the store grow.
use dispatch_core.Shared.{
  ◌≡◌, refl, inl, inr, true, false, String, pair_eq, string_eq, none, some, List, [], ◌∷◌, arith,
}
use dispatch_core.Shared.Dict.{Dict, get, Distinct}
use dispatch_core.Domain.Errors.{Result, ok, err}
use dispatch_core.Domain.Events.{DomainEvent, Ambient}
use dispatch_core.Domain.WorkOrder.{WorkOrder, Command, apply}
use dispatch_core.Domain.WorkOrder.Recording.{apply-Records}
use dispatch_core.Domain.Tracking
use dispatch_core.Domain.Tracking.{TrackingSession, Fresh}
use dispatch_core.Domain.Tracking.Frame.{
  add_point-Continues, complete-Continues, cancel-Continues, add_point_moves, complete_moves,
  cancel_moves,
}
use dispatch_core.Application.Task.{continue, after, with_unit, pure, finished}
use dispatch_core.Infrastructure.Memory.{Staged, at_most_one, matches}
use dispatch_core.Dispatch.Sessions.{matches_found}
use dispatch_core.Infrastructure.AsyncMemory.{
  Key, AsyncMemoryUnitOfWork, AsyncMemoryStore, checks, numbered, write_if,
}
use dispatch_core.Interleaving.Growth.{
  IsFiled, Follows, Follows-refl, Follows-IsFiled, Fits, Fits-read, Fits-new, commit-Follows,
  order_version, session_version, IsOrderAt, IsSessionAt, Later,
}
use dispatch_core.Interleaving.Steady.{Steady}

-- A change of an order that keeps its identity, and either repeats it or raises its version.
abbrev pub Moves : (WorkOrder → Result WorkOrder) → Type 0
Moves change =
    (o o' : WorkOrder)
    → change o ≡ ok o'
    → Later order_version o o' × (o'.id ≡ o.id) × (o'.organization_id ≡ o.organization_id)

pub apply-Moves : (c : Command) (env : Ambient) → Moves (apply c none env)
apply-Moves c env o o' h = elim (apply-Records none env o c h) [
  | inl (r, same) ↦ (inl same, cc, cc)
  | inr (r, new) ↦ (inr (omega (arith, new.version)), new.id, new.organization_id)
]

-- A change of a session that does so.
abbrev pub SessionMoves : (TrackingSession → Result TrackingSession) → Type 0
SessionMoves close =
    (t t' : TrackingSession)
    → close t ≡ ok t'
    → Later session_version t t' × (t'.id ≡ t.id) × (t'.organization_id ≡ t.organization_id)

pub add_point-Moves :
    (p : Tracking.TrackingPoint) (env : Ambient) → SessionMoves (Tracking.add_point p env)
add_point-Moves p env t t' h =
    let same = (add_point-Continues env t p h).1 in
    (add_point_moves env t p h, same.id, same.organization_id)

pub complete-Moves : (env : Ambient) → SessionMoves (Tracking.complete none env)
complete-Moves env t t' h =
    let same = (complete-Continues env t none h).1 in
    (complete_moves env t none h, same.id, same.organization_id)

pub cancel-Moves :
    (reason : String) (env : Ambient) → SessionMoves (Tracking.cancel reason none env)
cancel-Moves reason env t t' h =
    let same = (cancel-Continues env t reason none h).1 in
    (cancel_moves env t reason none h, same.id, same.organization_id)

-- What is staged for a changed order.
abbrev pub staged_order : WorkOrder → WorkOrder → Key × Staged WorkOrder
staged_order o o' = (
  (o'.organization_id, o'.id),
  record { snapshot = record o' { events = [] }; expected_version = some o.version },
)

abbrev pub staged_session : TrackingSession → TrackingSession → Key × Staged TrackingSession
staged_session t t' = (
  (t'.organization_id, t'.id),
  record { snapshot = record t' { events = [] }; expected_version = some t.version },
)

-- What was read and changed fits where it stood.
pub order-Fits :
    (s t : AsyncMemoryStore) (key : Key) (o o' : WorkOrder)
    → IsFiled s
    → Follows s t
    → get s.orders key ≡ some o
    → Later order_version o o' × (o'.id ≡ o.id) × (o'.organization_id ≡ o.organization_id)
    → Fits order_version IsOrderAt t.orders (staged_order o o' ∷ [])
order-Fits s t key o o' filed g e (later, id, org) =
    let (at, empty) = filed.orders.all key o e in
    let here : (o'.organization_id, o'.id) ≡ key = rw (id, org) at in
    Fits-read order_version IsOrderAt s.orders t.orders (o'.organization_id, o'.id) o
      (record o' { events = [] }) (rw here e) g.orders (refl, refl)
      (elim later [ inl same ↦ inl (ground arith) | inr more ↦ inr more ])

pub session-Fits :
    (s t : AsyncMemoryStore) (key : Key) (o o' : TrackingSession)
    → IsFiled s
    → Follows s t
    → get s.tracking_sessions key ≡ some o
    → Later session_version o o' × (o'.id ≡ o.id) × (o'.organization_id ≡ o.organization_id)
    → Fits session_version IsSessionAt t.tracking_sessions (staged_session o o' ∷ [])
session-Fits s t key o o' filed g e (later, id, org) =
    let (at, empty) = filed.sessions.all key o e in
    let here : (o'.organization_id, o'.id) ≡ key = rw (id, org) at in
    Fits-read session_version IsSessionAt s.tracking_sessions t.tracking_sessions
      (o'.organization_id, o'.id) o (record o' { events = [] }) (rw here e) g.sessions (refl, refl)
      (elim later [ inl same ↦ inl (ground arith) | inr more ↦ inr more ])

-- A unit that is about to commit.
abbrev pub unit_of :
    Dict Key (Staged WorkOrder)
    → Dict Key (Staged TrackingSession)
    → List DomainEvent
    → AsyncMemoryUnitOfWork
unit_of orders sessions events = record {
  staged_orders = orders;
  staged_tracking = sessions;
  staged_events = events;
  committed = false;
}

abbrev pub done_unit : AsyncMemoryUnitOfWork
done_unit = record {
  staged_orders = [];
  staged_tracking = [];
  staged_events = [];
  committed = true;
}

only_one :
    (ts : List TrackingSession) {c : TrackingSession} → at_most_one ts ≡ ok (some c) → ts ≡ c ∷ []
only_one [] h = absurd (ground arith)
only_one (t ∷ []) h = ground arith
only_one (t ∷ u ∷ ts) h = absurd (ground arith)

-- The session that is found to be active stands in the store.
pub active_stored :
    (organization_id order_id : String) (d : Dict Key TrackingSession) {c : TrackingSession}
    → Distinct d
    → at_most_one (matches organization_id order_id d) ≡ ok (some c)
    → (key : Key) × (get d key ≡ some c)
active_stored organization_id order_id d {c} distinct h =
    let (key, stored, m) =
      matches_found organization_id order_id d {t = c} {ts = []} distinct
        (only_one (matches organization_id order_id d) h) in
    (key, stored)

pub ends :
    {A : Type 0} (r : Result (Unit {0})) (a : A) (s : AsyncMemoryStore)
    → Steady
        (continue
          (after (with_unit r done_unit) (λ x. pure {U = AsyncMemoryUnitOfWork} a))
          (λ a u. finished (ok a)))
        s
ends (ok x) a s = tt
ends (err e) a s = tt

-- The step that commits what fits, and the end of the unit after it.
pub commits :
    {A : Type 0} (orders : Dict Key (Staged WorkOrder))
    (sessions : Dict Key (Staged TrackingSession)) (events : List DomainEvent) (a : A)
    (v : AsyncMemoryStore)
    → IsFiled v
    → Fits order_version IsOrderAt v.orders orders
    → Fits session_version IsSessionAt v.tracking_sessions sessions
    → let u = unit_of orders sessions events in
      Follows v (write_if (checks u v) u v)
      × Steady
          (continue
            (after (with_unit (checks u v) done_unit) (λ x. pure {U = AsyncMemoryUnitOfWork} a))
            (λ a u. finished (ok a)))
          (write_if (checks u v) u v)
commits orders sessions events a v filed fits fits' = (
  commit-Follows (unit_of orders sessions events) v filed fits fits',
  ends (checks (unit_of orders sessions events) v) a _,
)

-- A step that only reads.
pub stays : (s t : AsyncMemoryStore) → Follows s t → Follows t t
stays s t g = Follows-refl t (Follows-IsFiled s t g)

-- A new aggregate fits where nothing stands.
pub new_order-Fits :
    (t : AsyncMemoryStore) (o : WorkOrder)
    → Fits order_version IsOrderAt t.orders (
        (
          (o.organization_id, o.id),
          record { snapshot = record o { events = [] }; expected_version = none },
        )
        ∷ [])
new_order-Fits t o =
    Fits-new order_version IsOrderAt t.orders (o.organization_id, o.id) (record o { events = [] })
      (refl, refl)

pub new_session-Fits :
    (t : AsyncMemoryStore) (o : TrackingSession)
    → Fits session_version IsSessionAt t.tracking_sessions (
        (
          (o.organization_id, o.id),
          record { snapshot = record o { events = [] }; expected_version = none },
        )
        ∷ [])
new_session-Fits t o =
    Fits-new session_version IsSessionAt t.tracking_sessions (o.organization_id, o.id)
      (record o { events = [] }) (refl, refl)

-- Numbering touches no order and no session.
pub numbered-Follows :
    (organization_id : String) (s t : AsyncMemoryStore)
    → Follows s t
    → Follows t (numbered organization_id t)
numbered-Follows organization_id s t g =
    let here = Follows-refl t (Follows-IsFiled s t g) in
    record { orders = here.orders; sessions = here.sessions }
