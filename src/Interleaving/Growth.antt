-- ===== src/Interleaving/Growth.antt =====
-- How the store may change while a task waits: nothing is lost, and what changes gets a higher version.
use dispatch_core.Shared.{
  ℕ, ◌<◌, ◌≡◌, refl, ◌⊎◌, inl, inr, pair_eq, none, some, [], ◌∷◌, arith, ==ℕ_iff,
}
use dispatch_core.Shared.Dict.{
  Dict, get, put, put_cases, get-put_self, get-put_ne, Distinct, put-Distinct,
}
use dispatch_core.Shared.{eq_cases}
use dispatch_core.Domain.Errors.{ok, Result-cases}
use dispatch_core.Domain.WorkOrder.{WorkOrder}
use dispatch_core.Domain.Tracking.{TrackingSession}
use dispatch_core.Infrastructure.Memory.{
  Staged, check_version, check_collection_versions, write_all,
}
use dispatch_core.Infrastructure.AsyncMemory.{
  Key, AsyncMemoryStore, AsyncMemoryUnitOfWork, checks, write_if, written, check_versions,
}

-- A later state of one aggregate: the same, or one of a higher version.
abbrev pub Later : {A : Type 0} → (A → ℕ) → A → A → Type 0
Later version a b = (b ≡ a) ⊎ (version a < version b)

module _ {A : Type 0} (version : A → ℕ) (IsAt : Key → A → Type 0) where
  -- All that is stored stands under its key.
  abbrev pub AllAt : Dict Key A → Type 0
  AllAt d = (k : Key) (a : A) → get d k ≡ some a → IsAt k a

  -- And no key stands twice.
  pub record Filed (d : Dict Key A) : Type 0 where
    pub all : AllAt d
    pub distinct : Distinct d

  pub record Grown (d d' : Dict Key A) : Type 0 where
    pub filed : Filed d'
    pub kept :
        (k : Key) (a : A) → get d k ≡ some a → (b : A) × (get d' k ≡ some b) × Later version a b

  pub Grown-refl : (d : Dict Key A) → Filed d → Grown d d
  Grown-refl d h = record { filed = h; kept = λ k a q. (a, q, inl refl) }

  pub Grown-trans : (d e f : Dict Key A) → Grown d e → Grown e f → Grown d f
  Grown-trans d e f g h = record {
    filed = h.filed;
    kept = λ k a q.
        let (b, r, l) = g.kept k a q in let (c, r', l') = h.kept k b r in (c, r', ground arith);
  }

  pub put-Grown :
      (d : Dict Key A) (k : Key) (x : A)
      → Filed d
      → IsAt k x
      → ((a : A) → get d k ≡ some a → Later version a x)
      → Grown d (put d k x)
  put-Grown d k x h at later = record {
    filed = record {
      all = λ j a q. elim (put_cases d k j x a q) [
        | inl (e, f) ↦ rw (← e, f) at
        | inr (n, q') ↦ h.all j a q'
      ];
      distinct = put-Distinct d k x h.distinct;
    };
    kept = λ j a q. elim (eq_cases k j) [
      | inl e ↦ (x, rw (← e) (get-put_self d k x), later a (rw e q))
      | inr n ↦ (a, rw (get-put_ne d k j x n) q, inl refl)
    ];
  }

  -- What a unit has staged on a collection: nothing, or one aggregate under its key, which is a later
  -- state of what is stored there if its check passes.
  abbrev pub Fits : Dict Key A → Dict Key (Staged A) → Type 0
  Fits d [] = Unit
  Fits d ((k, x) ∷ []) =
      IsAt k x.snapshot
      × ((a : A)
          → get d k ≡ some a
          → check_version x.expected_version (some (version a)) ≡ ok tt
          → Later version a x.snapshot)
  Fits d (x ∷ y ∷ staged) = ⊥

  pub write_all-Grown :
      (d : Dict Key A) (staged : Dict Key (Staged A))
      → Filed d
      → Fits d staged
      → check_collection_versions version d staged ≡ ok tt
      → Grown d (write_all d staged)
  unfolding check_collection_versions write_all
  write_all-Grown d [] h fits checked = Grown-refl d h
  write_all-Grown d ((k, x) ∷ []) h fits checked =
      put-Grown d k x.snapshot h fits.0 (λ a q. fits.1 a q (ground arith))
  write_all-Grown d (x ∷ y ∷ staged) h fits checked = absurd fits

  -- An aggregate that was read, and moved on, fits.
  pub Fits-read :
      (d d' : Dict Key A) (k : Key) (a x : A)
      → get d k ≡ some a
      → Grown d d'
      → IsAt k x
      → Later version a x
      → Fits d' ((k, record { snapshot = x; expected_version = some (version a) }) ∷ [])
  Fits-read d d' k a x q g at later = (
    at,
    λ b r c.
        let (b', r', l) = g.kept k a q in
        let same : b ≡ a = ground (arith, ==ℕ_iff (version b) (version a)) in rw same later,
  )

  -- A new aggregate fits.
  pub Fits-new :
      (d : Dict Key A) (k : Key) (x : A)
      → IsAt k x
      → Fits d ((k, record { snapshot = x; expected_version = none }) ∷ [])
  Fits-new d k x at = (at, λ b r c. absurd (ground arith))

abbrev pub IsOrderAt : Key → WorkOrder → Type 0
IsOrderAt k o = ((o.organization_id, o.id) ≡ k) × (o.events ≡ [])

abbrev pub IsSessionAt : Key → TrackingSession → Type 0
IsSessionAt k t = ((t.organization_id, t.id) ≡ k) × (t.events ≡ [])

abbrev pub order_version : WorkOrder → ℕ
order_version o = o.version

abbrev pub session_version : TrackingSession → ℕ
session_version t = t.version

-- Every order and every session of the store stands under its own key, with no event left to pull.
pub record IsFiled (s : AsyncMemoryStore) : Type 0 where
  pub orders : Filed order_version IsOrderAt s.orders
  pub sessions : Filed session_version IsSessionAt s.tracking_sessions

-- The store may become another while a task waits.
pub record Follows (s t : AsyncMemoryStore) : Type 0 where
  pub orders : Grown order_version IsOrderAt s.orders t.orders
  pub sessions : Grown session_version IsSessionAt s.tracking_sessions t.tracking_sessions

pub Follows-refl : (s : AsyncMemoryStore) → IsFiled s → Follows s s
Follows-refl s h = record {
  orders = Grown-refl order_version IsOrderAt s.orders h.orders;
  sessions = Grown-refl session_version IsSessionAt s.tracking_sessions h.sessions;
}

pub Follows-trans : (s t u : AsyncMemoryStore) → Follows s t → Follows t u → Follows s u
Follows-trans s t u g h = record {
  orders = Grown-trans order_version IsOrderAt s.orders t.orders u.orders g.orders h.orders;
  sessions =
      Grown-trans session_version IsSessionAt s.tracking_sessions t.tracking_sessions
        u.tracking_sessions g.sessions h.sessions;
}

pub Follows-IsFiled : (s t : AsyncMemoryStore) → Follows s t → IsFiled t
Follows-IsFiled s t g = record { orders = g.orders.filed; sessions = g.sessions.filed }

-- A commit of what fits.
pub commit-Follows :
    (u : AsyncMemoryUnitOfWork) (t : AsyncMemoryStore)
    → IsFiled t
    → Fits order_version IsOrderAt t.orders u.staged_orders
    → Fits session_version IsSessionAt t.tracking_sessions u.staged_tracking
    → Follows t (write_if (checks u t) u t)
unfolding check_versions written
commit-Follows u t h orders sessions = elim (Result-cases (checks u t)) [
  | inr (e, f) ↦ rw f (Follows-refl t h)
  | inl (v, f) ↦ rw f (record {
    orders =
        write_all-Grown order_version IsOrderAt t.orders u.staged_orders h.orders orders
          (ground arith);
    sessions =
        write_all-Grown session_version IsSessionAt t.tracking_sessions u.staged_tracking h.sessions
          sessions (ground arith);
  })
]
