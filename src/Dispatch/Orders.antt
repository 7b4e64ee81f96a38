-- ===== src/Dispatch/Orders.antt =====
-- What holds of the stored orders and of the events sent for them, whatever the service did.
use native.Mathlib.Numerals.{add-one}
use dispatch_core.Shared.{
  ℕ, zero, suc, ◌+◌, ◌≡◌, ◌≢◌, refl, ◌∙◌, inl, inr, Bool, ◌&&◌, if◌then◌else◌, String, ◌==◌,
  string_eq, eq_iff, eq_cases, Option, none, some, List, [], ◌∷◌, ◌++◌, append-nil, All, arith,
}
use dispatch_core.Shared.Dict.{get, put, get-put_self, get-put_ne, put_cases, values}
use dispatch_core.Domain.Errors.{ok}
use dispatch_core.Domain.Events.{DomainEvent, Ambient}
use dispatch_core.Domain.WorkOrder.{WorkOrder, Command, apply, Submission, create}
use dispatch_core.Domain.WorkOrder.Invariant.{IsValid, create-IsValid, apply-IsValid}
use dispatch_core.Domain.WorkOrder.Recording.{apply-Records}
use dispatch_core.Domain.Tracking.Frame.{IsSessionEvent}
use dispatch_core.Infrastructure.Memory.{MemoryStore, check_capacity}

-- The snapshot that the store keeps.
abbrev pub cleared : WorkOrder → WorkOrder
cleared o = record o { events = [] }

-- The versions of the events sent for a work order.
abbrev is_of : String → DomainEvent → Bool
is_of id e = e.aggregate_type == "work_order" && e.aggregate_id == id

unfoldable pub versions_of : String → List DomainEvent → List ℕ
versions_of id [] = []
versions_of id (e ∷ es) =
    let rest = versions_of id es in if is_of id e then e.aggregate_version ∷ rest else rest

-- 1, 2, …, n
unfoldable pub upto : ℕ → List ℕ
upto zero = []
upto (suc n) = upto n ++ suc n ∷ []

abbrev pub version_or_zero : Option WorkOrder → ℕ
version_or_zero none = 0
version_or_zero (some o) = o.version

-- An order as it stands in the store under `id`.
pub record IsKept (id : String) (o : WorkOrder) : Type 0 where
  pub key : o.id ≡ id
  pub valid : IsValid o
  pub pulled : o.events ≡ []

-- The stored orders are valid and stand under their ids, no executor has two active orders of an
-- organization, and for each order the events sent are numbered 1 up to its version.
pub record IsOrderly (s : MemoryStore) : Type 0 where
  pub kept : (id : String) (o : WorkOrder) → get s.orders id ≡ some o → IsKept id o
  pub capacity : check_capacity [] (values s.orders) ≡ ok tt
  pub trail :
      (id : String) → versions_of id s.outbox_events ≡ upto (version_or_zero (get s.orders id))

versions_of-append :
    (id : String) (es fs : List DomainEvent)
    → versions_of id (es ++ fs) ≡ versions_of id es ++ versions_of id fs
unfolding versions_of
versions_of-append id [] fs = refl
versions_of-append id (e ∷ es) fs = ground (arith, versions_of-append id es fs)

session_ne_order : ◌≢◌ {A = String} "tracking_session" "work_order"
session_ne_order = ground (arith, eq_iff "tracking_session" "work_order")

versions_of-sessions :
    (id : String) (es : List DomainEvent) → All IsSessionEvent es → versions_of id es ≡ []
unfolding versions_of
versions_of-sessions id [] h = refl
versions_of-sessions id (e ∷ es) h =
    ground (
      arith,
      versions_of-sessions id es h.1,
      eq_iff e.aggregate_type "work_order",
      session_ne_order,
    )

upto-add-one : (n : ℕ) → upto (n + 1) ≡ upto n ++ (n + 1) ∷ []
unfolding upto
upto-add-one n = rw add-one

-- What an order sends when it goes from `o` to `o'`: the events of the versions in between.
pub record Sends (o o' : WorkOrder) : Type 0 where
  pub key : o'.id ≡ o.id
  pub own : upto o.version ++ versions_of o.id o'.events ≡ upto o'.version
  pub others : (id : String) → o.id ≢ id → versions_of id o'.events ≡ []

pub apply-Sends :
    (c : Command) (env : Ambient) (o o' : WorkOrder)
    → apply c none env o ≡ ok o'
    → o.events ≡ []
    → Sends o o'
unfolding versions_of
apply-Sends c env o o' h clean = elim (apply-Records none env o c h) [
  | inl (r, same) ↦ record {
    key = cc;
    own = rw (same, clean) (append-nil (upto o.version));
    others = λ id ne. rw (same, clean);
  }
  | inr (r, new) ↦ record {
    key = new.id;
    own = rw (new.events, clean, new.version, upto-add-one) (ground (arith, eq_iff o.id o.id));
    others = λ id ne. rw (new.events, clean) (ground (arith, eq_iff o.id id));
  }
]

cleared-IsKept : (id : String) (o : WorkOrder) → o.id ≡ id → IsValid o → IsKept id (cleared o)
cleared-IsKept id o e v = record {
  key = e;
  valid = record {
    id = v.id;
    public_number = v.public_number;
    organization_id = v.organization_id;
    work_type = v.work_type;
    shape = v.shape;
    report = v.report;
    keyed = v.keyed;
    distinct = v.distinct;
    quiet = v.quiet;
    gathered = v.gathered;
  };
  pulled = refl;
}

-- The store keeps what it kept, and the order that is written.
write-IsKept :
    (s : MemoryStore) (o' : WorkOrder)
    → ((id : String) (o : WorkOrder) → get s.orders id ≡ some o → IsKept id o)
    → IsValid o'
    → (id : String) (x : WorkOrder) → get (put s.orders o'.id (cleared o')) id ≡ some x
    → IsKept id x
write-IsKept s o' kept v id x q = elim (put_cases s.orders o'.id id (cleared o') x q) [
  | inl (e, same) ↦ rw same (cleared-IsKept id o' e v)
  | inr (ne, old) ↦ kept id x old
]

-- The numbering goes on, when an order that stood at `before` sends its events.
write-trail :
    (s : MemoryStore) (o' : WorkOrder) (before : ℕ) (more : List DomainEvent)
    → ((id : String) → versions_of id s.outbox_events ≡ upto (version_or_zero (get s.orders id)))
    → version_or_zero (get s.orders o'.id) ≡ before
    → upto before ++ versions_of o'.id o'.events ≡ upto o'.version
    → ((id : String) → o'.id ≢ id → versions_of id o'.events ≡ [])
    → All IsSessionEvent more
    → (id : String)
    → versions_of id (s.outbox_events ++ (o'.events ++ more))
      ≡ upto (version_or_zero (get (put s.orders o'.id (cleared o')) id))
write-trail s o' before more trail stood own others quiet id =
    rw
      (
        versions_of-append id s.outbox_events (o'.events ++ more),
        versions_of-append id o'.events more,
        versions_of-sessions id more quiet,
        append-nil,
      )
      (elim (eq_cases o'.id id) [
        | inl e ↦ rw (← e, get-put_self, trail o'.id, stood) own
        | inr ne ↦
            rw (get-put_ne s.orders o'.id id (cleared o') ne, others id ne, append-nil) (trail id)
      ])

-- One order moves on and sends its events, with those of sessions behind them.
pub move-IsOrderly :
    (c : Command) (env : Ambient) (id : String) (o o' : WorkOrder) (more : List DomainEvent)
    (s s' : MemoryStore)
    → IsOrderly s
    → get s.orders id ≡ some o
    → apply c none env o ≡ ok o'
    → All IsSessionEvent more
    → s'.orders ≡ put s.orders o'.id (cleared o')
    → check_capacity [] (values (put s.orders o'.id (cleared o'))) ≡ ok tt
    → s'.outbox_events ≡ s.outbox_events ++ (o'.events ++ more)
    → IsOrderly s'
move-IsOrderly c env id o o' more s s' h stored moved quiet orders fits sent =
    let old = h.kept id o stored in
    let sends = apply-Sends c env o o' moved old.pulled in
    let key : o'.id ≡ id = sends.key ∙ old.key in
    record {
      kept = λ j x q.
          write-IsKept s o' h.kept (apply-IsValid none env o c old.valid moved) j x
            (rw orders at q);
      capacity = rw orders fits;
      trail = λ j.
          rw (sent, orders)
            (write-trail s o' o.version more h.trail (rw (key, stored)) (rw sends.key sends.own)
              (λ i ne. sends.others i (λ e. ne (sends.key ∙ e))) quiet j);
    }

create_versions :
    (sub : Submission) (env : Ambient) (o' : WorkOrder) (id : String)
    → create sub none env ≡ ok o'
    → (o'.version ≡ 1) × (versions_of id o'.events ≡ (if o'.id == id then 1 ∷ [] else []))
unfolding create versions_of
create_versions sub env o' id h = ground arith

-- A new order is written with its first event.
pub create-IsOrderly :
    (sub : Submission) (env : Ambient) (o' : WorkOrder) (s s' : MemoryStore)
    → IsOrderly s
    → create sub none env ≡ ok o'
    → get s.orders o'.id ≡ none
    → s'.orders ≡ put s.orders o'.id (cleared o')
    → check_capacity [] (values (put s.orders o'.id (cleared o'))) ≡ ok tt
    → s'.outbox_events ≡ s.outbox_events ++ o'.events
    → IsOrderly s'
unfolding versions_of upto
create-IsOrderly sub env o' s s' h made new orders fits sent = record {
  kept = λ j x q. write-IsKept s o' h.kept (create-IsValid sub none env made) j x (rw orders at q);
  capacity = rw orders fits;
  trail = λ j.
      rw (sent, orders)
        (rw (← append-nil o'.events) (
          write-trail s o' 0 [] h.trail (rw new)
            (ground (arith, create_versions sub env o' o'.id made, eq_iff o'.id o'.id))
            (λ id ne. ground (arith, create_versions sub env o' id made, eq_iff o'.id id)) tt j));
}

-- The orders stay, and only sessions send.
pub quiet-IsOrderly :
    (s s' : MemoryStore) (more : List DomainEvent)
    → IsOrderly s
    → All IsSessionEvent more
    → s'.orders ≡ s.orders
    → s'.outbox_events ≡ s.outbox_events ++ more
    → IsOrderly s'
quiet-IsOrderly s s' more h quiet orders sent = record {
  kept = λ j x q. h.kept j x (rw orders at q);
  capacity = rw orders h.capacity;
  trail = λ j.
      rw
        (
          sent,
          orders,
          versions_of-append j s.outbox_events more,
          versions_of-sessions j more quiet,
          append-nil,
        )
        (h.trail j);
}

-- A command leaves the identity of the order alone.
pub apply_identity :
    (c : Command) (env : Ambient) (o o' : WorkOrder)
    → apply c none env o ≡ ok o'
    → (o'.id ≡ o.id) × (o'.organization_id ≡ o.organization_id)
apply_identity c env o o' h = elim (apply-Records none env o c h) [
  | inl (r, same) ↦ (cc, cc)
  | inr (r, new) ↦ (new.id, new.organization_id)
]
