-- ===== src/Dispatch/Sessions.antt =====
-- What holds of the stored tracking sessions, and how they go with the orders.
use dispatch_core.Shared.{
  ℕ, zero, suc, ap, ◌+◌, ◌≡◌, ◌≢◌, refl, inl, inr, Bool, true, false, if◌then◌else◌, String,
  string_eq, pair_eq, eq_cases, Option, none, some, List, [], ◌∷◌, arith, Bool-cases, length,
}
use dispatch_core.Shared.Dict.{Dict, get, put, get-put_self, get-put_ne, put_cases, Distinct}
use dispatch_core.Domain.WorkOrder.{WorkOrder, WorkOrderStatus}
use dispatch_core.Domain.Tracking.{TrackingSession}
use dispatch_core.Domain.Tracking.Invariant.{IsValid}
use dispatch_core.Infrastructure.Memory.{MemoryStore, matches, is_match}

abbrev pub Sessions : Type 0
Sessions = Dict (String × String) TrackingSession

-- A session as it stands in the store under its key.
pub record IsKept (key : String × String) (t : TrackingSession) : Type 0 where
  pub organization_id : t.organization_id ≡ key.0
  pub id : t.id ≡ key.1
  pub valid : IsValid t
  pub pulled : t.events ≡ []

-- How many sessions are active for an order.
abbrev pub active_count : String → String → Sessions → ℕ
active_count organization_id order_id d = length (matches organization_id order_id d)

abbrev pub is_moving : WorkOrderStatus → Bool
is_moving WorkOrderStatus.en_route = true
is_moving WorkOrderStatus.in_progress = true
is_moving _ = false

abbrev pub IsMoving : String → Option WorkOrder → Type 0
IsMoving organization_id none = ⊥
IsMoving organization_id (some o) =
    (o.organization_id ≡ organization_id) × (is_moving o.status ≡ true)

abbrev pub IsNotEnRoute : String → Option WorkOrder → Type 0
IsNotEnRoute organization_id none = Unit
IsNotEnRoute organization_id (some o) =
    o.organization_id ≡ organization_id → o.status ≢ WorkOrderStatus.en_route

-- An order has one active session at most, has one when it is on its way, and has one only while it is
-- on its way or in progress.
abbrev pub IsLinked : String → Option WorkOrder → ℕ → Type 0
IsLinked organization_id o zero = IsNotEnRoute organization_id o
IsLinked organization_id o (suc zero) = IsMoving organization_id o
IsLinked organization_id o (suc (suc n)) = ⊥

pub record IsTracked (s : MemoryStore) : Type 0 where
  pub kept :
      (key : String × String) (t : TrackingSession)
      → get s.tracking_sessions key ≡ some t
      → IsKept key t
  pub distinct : Distinct s.tracking_sessions
  pub linked :
      (organization_id order_id : String)
      → IsLinked organization_id
          (get s.orders order_id)
          (active_count organization_id order_id s.tracking_sessions)

module _ (organization_id order_id : String) where
  -- What a stored session counts for.
  abbrev pub weight : String × String → Option TrackingSession → ℕ
  weight key none = 0
  weight key (some t) = if is_match organization_id order_id key t then 1 else 0

  pub active_count-put :
      (d : Sessions) (key : String × String) (t : TrackingSession)
      → active_count organization_id order_id (put d key t) + weight key (get d key)
        ≡ active_count organization_id order_id d + weight key (some t)
  unfolding matches put get
  active_count-put [] key t = ground arith
  active_count-put ((k, u) ∷ d) key t =
      ground (arith, active_count-put d key t, pair_eq.agrees k key)

  -- The first match stands in the store.
  pub matches_found :
      (d : Sessions) {t : TrackingSession} {ts : List TrackingSession}
      → Distinct d
      → matches organization_id order_id d ≡ t ∷ ts
      → (key : String × String) × (get d key ≡ some t)
        × (is_match organization_id order_id key t ≡ true)
  unfolding matches get
  matches_found [] h m = absurd (ground arith)
  matches_found ((k, u) ∷ d) {t} {ts} h m =
      elim (Bool-cases (is_match organization_id order_id k u)) [
        | inl e ↦
            let same : u ≡ t = ground arith in (k, ground (arith, pair_eq.agrees k k), rw same at e)
        | inr e ↦
            let (key, stored, match) = matches_found d {t = t} {ts = ts} h.1 (ground arith) in
            (key, ground (arith, pair_eq.agrees k key), match)
      ]

abbrev pub kept_session : TrackingSession → TrackingSession
kept_session t = record t { events = [] }

kept_session-IsKept :
    (key : String × String) (t : TrackingSession)
    → (t.organization_id, t.id) ≡ key
    → IsValid t
    → IsKept key (kept_session t)
kept_session-IsKept key t e v = record {
  organization_id = ap (λ (k : String × String). k.0) e;
  id = ap (λ (k : String × String). k.1) e;
  valid = record {
    loaded = v.loaded;
    persisted = v.persisted;
    ordered = v.ordered;
    distinct = v.distinct;
    tokens = v.tokens;
  };
  pulled = refl;
}

-- The store keeps what it kept, and the session that is written.
pub write-IsKept :
    (d : Sessions) (t' : TrackingSession)
    → ((key : String × String) (t : TrackingSession) → get d key ≡ some t → IsKept key t)
    → IsValid t'
    → (key : String × String) (x : TrackingSession)
    → get (put d (t'.organization_id, t'.id) (kept_session t')) key ≡ some x
    → IsKept key x
write-IsKept d t' kept v key x q =
    elim (put_cases d (t'.organization_id, t'.id) key (kept_session t') x q) [
      | inl (e, same) ↦ rw same (kept_session-IsKept key t' e v)
      | inr (ne, old) ↦ kept key x old
    ]

-- A link goes on when the order does, with the same number of sessions.
pub IsLinked-go :
    (organization_id : String) (o o' : WorkOrder) (n : ℕ)
    → o'.organization_id ≡ o.organization_id
    → (is_moving o.status ≡ true → is_moving o'.status ≡ true)
    → (o'.status ≡ WorkOrderStatus.en_route → o.status ≡ WorkOrderStatus.en_route)
    → IsLinked organization_id (some o) n
    → IsLinked organization_id (some o') n
IsLinked-go x o o' zero e f g h = λ p q. h (rw (← e) p) (g q)
IsLinked-go x o o' (suc zero) e f g h = (rw e h.0, f h.1)
IsLinked-go x o o' (suc (suc n)) e f g h = h

-- The order that is written is linked under its own id, and the others as before.
pub IsLinked-put :
    (s : MemoryStore) (o' : WorkOrder) (d : Sessions)
    → ((organization_id : String)
        → IsLinked organization_id
            (some (record o' { events = [] }))
            (active_count organization_id o'.id d))
    → ((organization_id order_id : String)
        → o'.id ≢ order_id
        → IsLinked organization_id
            (get s.orders order_id)
            (active_count organization_id order_id d))
    → (organization_id order_id : String)
    → IsLinked organization_id
        (get (put s.orders o'.id (record o' { events = [] })) order_id)
        (active_count organization_id order_id d)
IsLinked-put s o' d own others organization_id order_id = elim (eq_cases o'.id order_id) [
  | inl e ↦ rw (← e, get-put_self) (own organization_id)
  | inr ne ↦
      rw (get-put_ne s.orders o'.id order_id (record o' { events = [] }) ne)
        (others organization_id order_id ne)
]
