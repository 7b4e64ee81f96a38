-- ===== src/Messaging/Intake/Ready.antt =====
-- The steps and handlers of src/dispatch_core/messaging/intake.py by the two judgements.
use dispatch_core.Shared.{
  ◌+◌, ◌<◌, true, ◌||◌, ltb, String, string_eq, pair_eq, is_empty, chars, Option, none, some, List,
  [], ◌∷◌, ◌≡◌, ◌⊎◌, refl, arith, length, drop, Bool-cases, Option-cases, inl, inr,
}
use dispatch_core.Domain.WorkOrder.{WorkOrder}
use dispatch_core.Packs.Fields.{ordered_fields}
use dispatch_core.Application.Exec.{Exec, ◌>>◌}
use dispatch_core.Application.Service.{OrderRequest}
use dispatch_core.Messaging.Intake.Data.{
  IntakeState, Step, ServiceLocation, PackStore, Library, PackRevision, World, ActorIdentity, save,
  has,
}
use dispatch_core.Messaging.Intake.Prompts.{with_cancel, not_configured, ask_field}
use dispatch_core.Messaging.Intake.Steps.{clip, sign_count, get_elem?, filled_ahead}
use dispatch_core.Messaging.Intake.Changes.{Fresh, new_state, to_address, to_services}
use dispatch_core.Messaging.Intake.Flow.{
  start, to_confirmation, fill_phone, fill_address, ask_next, finish_services,
}
use dispatch_core.Messaging.Intake.Passed.{
  Passed, has-put, Passed-filled_ahead, Passed-ahead, All-Passed,
}
use dispatch_core.Messaging.Intake.Validity.{Contacts, IsReady}
use dispatch_core.Messaging.Intake.Judgement.{Keeps, pure-Keeps, lift-Keeps, bind-Keeps, save-Keeps}

module _ {S : Type 0} (packs : PackStore) (library : Library) (public_base_url : Option String)
    (create_order_once : OrderRequest → String → Exec S WorkOrder)
    (positive : (o : String) (r : PackRevision)
      → packs.active_revision o ≡ some r
      → 0 < r.version) where
  -- A state with the pack of its version.
  pub record Held (identity : ActorIdentity) (r : PackRevision) (s : IntakeState) : Type 0 where
    pub versioned : 0 < s.pack_version
    pub revision : packs.revision identity.organization_id s.pack_version ≡ some r
    pub ready : IsReady r.definition s

  abbrev pub List-cases :
      (ks : List String) → (ks ≡ []) ⊎ ((k : String) × (rest : List String) × (ks ≡ k ∷ rest))
  List-cases [] = inl refl
  List-cases (k ∷ ks) = inr (k, ks, refl)

  abbrev Quiet : {A : Type 0} → Exec (World S) A → Type 0
  Quiet m = Keeps packs create_order_once m

  pub save_then :
      {A : Type 0} (identity : ActorIdentity) (r : PackRevision) (s : IntakeState)
      (k : Exec (World S) A)
      → Held identity r s
      → Quiet k
      → Quiet (save identity s >> k)
  save_then identity r s k h q =
      bind-Keeps packs create_order_once (save identity s) (λ _. k)
        (save-Keeps packs create_order_once identity s h.versioned
          λ r' e. let same : r ≡ r' = ground (arith, e, h.revision) in rw same at h.ready)
        (λ _. q)

  pub start-Keeps :
      (identity : ActorIdentity) (fresh : Fresh)
      → Quiet (start packs library public_base_url create_order_once identity fresh)
  unfolding start
  start-Keeps identity fresh =
      elim (Option-cases (packs.active_revision identity.organization_id)) [
        | inl e ↦ rw (start, e) (pure-Keeps packs create_order_once not_configured)
        | inr e ↦
            rw (start, e.1)
              (bind-Keeps packs create_order_once _ _
                (save-Keeps packs create_order_once identity (new_state e.0 fresh)
                  (positive identity.organization_id e.0 e.1) (λ r q. (tt, tt)))
                (λ _. pure-Keeps packs create_order_once (with_cancel "Введите ваш телефон:")))
      ]

  pub to_confirmation-Keeps :
      (identity : ActorIdentity) (r : PackRevision) (s : IntakeState)
      → Held identity r (record s { step = Step.confirm })
      → Quiet
          (to_confirmation packs library public_base_url create_order_once identity r.definition s)
  unfolding to_confirmation
  to_confirmation-Keeps identity r s h =
      save_then identity r _ _ h (pure-Keeps packs create_order_once _)

  pub fill_phone-Keeps :
      (identity : ActorIdentity) (r : PackRevision) (s : IntakeState) (text : String)
      (fresh : Fresh)
      → Held identity r s
      → Quiet (fill_phone packs library public_base_url create_order_once identity s text fresh)
  unfolding fill_phone
  fill_phone-Keeps identity r s text fresh h =
      let value = clip text in
      elim (Bool-cases (is_empty value || ltb (sign_count value) 7)) [
        | inl e ↦ rw (fill_phone, e) (pure-Keeps packs create_order_once _)
        | inr e ↦
            rw (fill_phone, e)
              (save_then identity r (to_address value fresh.token s) _
                (record {
                  versioned = h.versioned;
                  revision = h.revision;
                  ready = (h.ready.0, ground (arith, has-put s.field_values "phone" "phone" value));
                })
                (lift-Keeps packs create_order_once _))
      ]

  pub Held-services :
      (identity : ActorIdentity) (r : PackRevision) (s : IntakeState) (value : String)
      (location : Option ServiceLocation)
      → s.step ≡ Step.address
      → Held identity r s
      → Held identity r (to_services value location s)
  Held-services identity r s value location step h =
      let phone : has s.field_values "phone" ≡ true = (rw step at h.ready.1) in
      record {
        versioned = h.versioned;
        revision = h.revision;
        ready = (
          h.ready.0,
          (
            ground (arith, phone, has-put s.field_values "address" "phone" value),
            ground (arith, has-put s.field_values "address" "address" value),
          ),
        );
      }

  pub fill_address-Keeps :
      (identity : ActorIdentity) (r : PackRevision) (s : IntakeState) (text : String)
      → s.step ≡ Step.address
      → Held identity r s
      → Quiet (
          fill_address packs library public_base_url create_order_once identity r.definition s text)
  unfolding fill_address
  fill_address-Keeps identity r s text step h =
      let value = clip text in
      elim (Bool-cases (is_empty value || ltb (length (chars value)) 5)) [
        | inl e ↦ rw (fill_address, e) (pure-Keeps packs create_order_once _)
        | inr e ↦
            rw (fill_address, e)
              (save_then identity r _ _ (Held-services identity r s value none step h)
                (lift-Keeps packs create_order_once _))
      ]

  pub ask_next-Keeps :
      (identity : ActorIdentity) (r : PackRevision) (s : IntakeState)
      → s.step ≡ Step.fields
      → Held identity r s
      → Quiet (ask_next packs library public_base_url create_order_once identity r.definition s)
  unfolding ask_next
  ask_next-Keeps identity r s step h =
      let fields = ordered_fields r.definition in
      let n = s.field_index + filled_ahead (drop s.field_index fields) s.field_values in
      let reached : Contacts s.field_values × Passed s.field_index fields s.field_values =
        (rw step at h.ready.1) in
      let further = Passed-ahead s.field_index fields s.field_values reached.1 in
      let held : Held identity r (record s { field_index = n }) = record {
        versioned = h.versioned;
        revision = h.revision;
        ready = (h.ready.0, rw step (reached.0, further));
      } in
      elim (Option-cases (get_elem? fields n)) [
        | inl e ↦
            rw (ask_next, e)
              (to_confirmation-Keeps identity r (record s { field_index = n })
                (record {
                  versioned = h.versioned;
                  revision = h.revision;
                  ready = (h.ready.0, (reached.0, All-Passed n fields s.field_values further e));
                }))
        | inr e ↦
            rw (ask_next, e.1)
              (save_then identity r _ _ held (lift-Keeps packs create_order_once (ask_field e.0)))
      ]

  pub finish_services-Keeps :
      (identity : ActorIdentity) (r : PackRevision) (s : IntakeState)
      → Contacts s.field_values
      → Held identity r s
      → Quiet
          (finish_services packs library public_base_url create_order_once identity r.definition s)
  unfolding finish_services
  finish_services-Keeps identity r s c h =
      let fields = ordered_fields r.definition in
      let n = filled_ahead fields s.field_values in
      let passed = Passed-filled_ahead fields s.field_values in
      elim (List-cases s.selected) [
        | inl e ↦ rw (finish_services, e) (lift-Keeps packs create_order_once _)
        | inr (k, ks, e) ↦ elim (Option-cases (get_elem? fields n)) [
          | inl q ↦
              rw (finish_services, e, q)
                (to_confirmation-Keeps identity r (record s { step = Step.fields })
                  (record {
                    versioned = h.versioned;
                    revision = h.revision;
                    ready = (h.ready.0, (c, All-Passed n fields s.field_values passed q));
                  }))
          | inr q ↦
              rw (finish_services, e, q.1)
                (save_then identity r (record s { step = Step.fields; field_index = n }) _
                  (record {
                    versioned = h.versioned;
                    revision = h.revision;
                    ready = (h.ready.0, (c, passed));
                  })
                  (lift-Keeps packs create_order_once _))
        ]
      ]
