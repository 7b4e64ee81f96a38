-- ===== src/Messaging/Intake/Validity.antt =====
-- What holds of a saved state, and of an order that the flow asks for
-- (src/dispatch_core/messaging/intake.py).
use dispatch_core.Shared.{
  ℕ, ◌<◌, true, ◌||◌, any, String, ◌==◌, string_eq, pair_eq, Option, none, some, List, [], ◌∷◌, ◌≡◌,
  ◌≢◌, refl, arith, All, All-append, map, Bool-cases, inl, inr,
}
use dispatch_core.Shared.Dict.{Distinct, Dict, get, put}
use dispatch_core.Domain.Events.{Value, Payload}
use dispatch_core.Packs.Data.{FieldDefinition, PackDefinition, label_for}
use dispatch_core.Packs.Fields.{ordered_fields, sorted}
use dispatch_core.Application.Service.{OrderRequest}
use dispatch_core.Messaging.Intake.Data.{
  IntakeState, Step, row_of, PackStore, PackRevision, World, Library, ServiceLocation,
  ActorIdentity, has,
}
use dispatch_core.Messaging.Intake.Prompts.{join}
use dispatch_core.Messaging.Intake.Steps.{remove, toggle, with_values, texts}
use dispatch_core.Messaging.Intake.Changes.{details_of, request_of, located, with_location}
use dispatch_core.Messaging.Intake.Passed.{Given, Passed, has-put, All-sorted}

-- The catalog offers the service.
abbrev pub Offered : PackDefinition → String → Type 0
Offered pack key = any (λ c. c.key == key) pack.service_catalog.categories ≡ true

abbrev pub Contacts : {V : Type 0} → Dict String V → Type 0
Contacts d = (has d "phone" ≡ true) × (has d "address" ≡ true)

-- What stands in the state at each step.
abbrev pub Reached : PackDefinition → Dict String String → ℕ → Step → Type 0
Reached pack d n Step.phone = Unit
Reached pack d n Step.address = has d "phone" ≡ true
Reached pack d n Step.services = Contacts d
Reached pack d n Step.fields = Contacts d × Passed n (ordered_fields pack) d
Reached pack d n Step.confirm = Contacts d × All (Given d) (ordered_fields pack)

abbrev pub IsReady : PackDefinition → IntakeState → Type 0
IsReady pack s = All (Offered pack) s.selected × Reached pack s.field_values s.field_index s.step

-- The table has one row for each key, and every saved state is ready by the pack of its version.
pub record IsValid {S : Type 0} (packs : PackStore) (w : World S) : Type 0 where
  pub distinct : Distinct w.sessions
  pub versioned :
      (o a : String) (s : IntakeState) → get w.sessions (o, a) ≡ some s → 0 < s.pack_version
  pub ready :
      (o a : String) (s : IntakeState) (r : PackRevision)
      → get w.sessions (o, a) ≡ some s
      → packs.revision o s.pack_version ≡ some r
      → IsReady r.definition s

-- An order that the flow asks for: of services on offer, at least one, with the contacts and every
-- required field of the pack.
pub record IsComplete (pack : PackDefinition) (a : OrderRequest) : Type 0 where
  pub selected : List String
  pub some_selected : selected ≢ []
  pub offered : All (Offered pack) selected
  pub named : a.work_type ≡ join "," selected
  pub contacts : Contacts a.details
  pub given : All (Given a.details) pack.fields

-- What the state `s` of a client, by the revision `r`, lets be ordered: at the confirmation, the request
-- that the state makes, which is complete by the revision's pack.
pub record Confirms (library : Library) (identity : ActorIdentity) (r : PackRevision)
    (s : IntakeState) (a : OrderRequest) : Type 0 where
  pub step : s.step ≡ Step.confirm
  pub request : a ≡ request_of library identity r.definition s
  pub complete : IsComplete r.definition a

-- Of what may be ordered in a state by a revision, what may be in the saved state of a client, by the
-- revision of the organization's pack that has the version of the state.
pub record FromState {S : Type 0} (packs : PackStore) (identity : ActorIdentity) (w : World S)
    (May : PackRevision → IntakeState → OrderRequest → Type 0) (a : OrderRequest) : Type 0 where
  pub state : IntakeState
  pub revision : PackRevision
  pub there : get w.sessions (row_of identity) ≡ some state
  pub versioned : packs.revision identity.organization_id state.pack_version ≡ some revision
  pub allowed : May revision state a

remove-All :
    (P : String → Type 0) (key : String) (ks : List String) → All P ks → All P (remove key ks)
remove-All P key [] h = tt
remove-All P key (k ∷ ks) h = elim (Bool-cases (k == key)) [
  | inl t ↦ rw t h.1
  | inr t ↦ rw t (h.0, remove-All P key ks h.1)
]

pub toggle-All :
    (P : String → Type 0) (key : String) (ks : List String)
    → P key
    → All P ks
    → All P (toggle key ks)
unfolding toggle
toggle-All P key ks p h = elim (Bool-cases (any (λ k. k == key) ks)) [
  | inl t ↦ rw t (remove-All P key ks h)
  | inr t ↦ rw t (All-append P ks (key ∷ []) h (p, tt))
]

has-with_values :
    (details : Payload) (d : Dict String String) (k : String)
    → has details k ≡ true
    → has (with_values details d) k ≡ true
unfolding with_values
has-with_values details [] k h = h
has-with_values details ((j, v) ∷ d) k h =
    has-with_values (put details j (Value.text v)) d k
      (ground (arith, h, has-put details j k (Value.text v)))

has-cons :
    (j : String) (v : String) (d : Dict String String) (k : String)
    → has ((j, v) ∷ d) k ≡ ((j == k) || has d k)
unfolding has get
has-cons j v d k = ground arith

has-values :
    (details : Payload) (d : Dict String String) (k : String)
    → has d k ≡ true
    → has (with_values details d) k ≡ true
unfolding with_values has get
has-values details [] k h = absurd (ground arith)
has-values details ((j, v) ∷ d) k h = elim (Bool-cases (j == k)) [
  | inl t ↦
      has-with_values (put details j (Value.text v)) d k
        (ground (arith, has-put details j k (Value.text v)))
  | inr t ↦ has-values (put details j (Value.text v)) d k (ground (arith, h, t, has-cons j v d k))
]

has-with_location :
    (library : Library) (details : Payload) (o : Option ServiceLocation) (k : String)
    → has details k ≡ true
    → has (with_location library details o) k ≡ true
unfolding with_location
has-with_location library details none k h = h
has-with_location library details (some p) k h =
    ground (arith, h, has-put details "service_location" k (located library p))

module _ (library : Library) (identity : ActorIdentity) (pack : PackDefinition) where
  has-details :
      (s : IntakeState) (k : String)
      → has s.field_values k ≡ true
      → has (details_of library pack s) k ≡ true
  unfolding details_of
  has-details s k h =
      let base : Payload =
        ("services", Value.items (texts (map (label_for pack.service_catalog) s.selected)))
        ∷ ("service_keys", Value.items (texts s.selected))
        ∷ ("pack_version", Value.number s.pack_version)
        ∷ [] in
      has-with_location library (with_values base s.field_values) s.service_location k
        (has-values base s.field_values k h)

  Given-details :
      (s : IntakeState) (fs : List FieldDefinition)
      → All (Given s.field_values) fs
      → All (Given (details_of library pack s)) fs
  Given-details s [] h = tt
  Given-details s (f ∷ fs) h = ((λ r. has-details s f.key (h.0 r)), Given-details s fs h.1)

  pub request_of-IsComplete :
      (s : IntakeState)
      → s.selected ≢ []
      → s.step ≡ Step.confirm
      → IsReady pack s
      → IsComplete pack (request_of library identity pack s)
  unfolding request_of ordered_fields
  request_of-IsComplete s chosen step ready =
      let done : Contacts s.field_values × All (Given s.field_values) (sorted pack.fields) =
        (rw step at ready.1) in
      record {
        selected = s.selected;
        some_selected = chosen;
        offered = ready.0;
        named = refl;
        contacts = (has-details s "phone" done.0.0, has-details s "address" done.0.1);
        given = Given-details s pack.fields (All-sorted (Given s.field_values) pack.fields done.1);
      }
