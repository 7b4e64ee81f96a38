-- ===== src/Messaging/Intake/Fields.antt =====
-- The choice of services and the answers to fields (src/dispatch_core/messaging/intake.py) by the
-- judgements.
use dispatch_core.Shared.{
  suc, ◌<◌, true, any, String, ◌==◌, string_eq, pair_eq, Option, some, List, [], ◌∷◌, ◌≡◌, refl,
  arith, All, Bool-cases, Option-cases, inl, inr,
}
use dispatch_core.Shared.Dict.{Dict, put}
use dispatch_core.Domain.Errors.{Result, ok, err}
use dispatch_core.Domain.WorkOrder.{WorkOrder}
use dispatch_core.Packs.Data.{FieldDefinition}
use dispatch_core.Packs.Fields.{ordered_fields}
use dispatch_core.Application.Exec.{Exec, lift, ◌>>=◌}
use dispatch_core.Application.Service.{OrderRequest}
use dispatch_core.Messaging.Intake.Data.{
  IntakeState, Step, PackStore, Library, PackRevision, World, ActorIdentity,
}
use dispatch_core.Messaging.Intake.Steps.{clip, get_elem?, toggle}
use dispatch_core.Messaging.Intake.Changes.{Answer, again, skipped, answered}
use dispatch_core.Messaging.Intake.Flow.{ask_next, pick_service, answer_of, take_answer, fill_field}
use dispatch_core.Messaging.Intake.Passed.{Passed, has-put, Passed-put, Passed-suc, All-Passed}
use dispatch_core.Messaging.Intake.Validity.{Offered, Contacts, toggle-All}
use dispatch_core.Messaging.Intake.Judgement.{Keeps, pure-Keeps, lift-Keeps}
use dispatch_core.Messaging.Intake.Ready.{
  Held, save_then, ask_next-Keeps, to_confirmation-Keeps, finish_services-Keeps,
}

module _ {S : Type 0} (packs : PackStore) (library : Library) (public_base_url : Option String)
    (create_order_once : OrderRequest → String → Exec S WorkOrder)
    (positive : (o : String) (r : PackRevision)
      → packs.active_revision o ≡ some r
      → 0 < r.version) where
  abbrev Quiet : {A : Type 0} → Exec (World S) A → Type 0
  Quiet m = Keeps packs create_order_once m

  pub pick_service-Keeps :
      (identity : ActorIdentity) (r : PackRevision) (s : IntakeState) (key : String)
      → Contacts s.field_values
      → Held packs library public_base_url create_order_once positive identity r s
      → Quiet
          (pick_service packs library public_base_url create_order_once identity r.definition s key)
  unfolding pick_service
  pick_service-Keeps identity r s key c h =
      let offers = any (λ c. c.key == key) r.definition.service_catalog.categories in
      let held : (ks : List String)
          → All (Offered r.definition) ks
          → Held packs library public_base_url create_order_once positive identity r
              (record s { selected = ks }) =
        λ ks o. record { versioned = h.versioned; revision = h.revision; ready = (o, h.ready.1) } in
      elim (Bool-cases offers) [
        | inr e ↦ rw (pick_service, e) (pure-Keeps packs create_order_once _)
        | inl e ↦ elim (Bool-cases r.definition.service_catalog.multi_select) [
          | inr q ↦
              rw (pick_service, e, q)
                (finish_services-Keeps packs library public_base_url create_order_once positive
                  identity r (record s { selected = key ∷ [] }) c (held (key ∷ []) (e, tt)))
          | inl q ↦
              rw (pick_service, e, q)
                (save_then packs library public_base_url create_order_once positive identity r
                  (record s { selected = toggle key s.selected }) _
                  (held (toggle key s.selected)
                    (toggle-All (Offered r.definition) key s.selected e h.ready.0))
                  (lift-Keeps packs create_order_once _))
        ]
      ]

  lift_then :
      {A B : Type 0} (x : Result A) (f : A → Exec (World S) B)
      → ((a : A) → x ≡ ok a → Quiet (f a))
      → Quiet (lift x >>= f)
  lift_then (ok a) f h = h a refl
  lift_then (err e) f h = lift-Keeps packs create_order_once (err e)

  -- Only an optional field is skipped.
  skipped-optional :
      (f : FieldDefinition) (value : String)
      → answer_of packs library public_base_url create_order_once f value ≡ ok skipped
      → f.required ≡ true
      → ⊥
  unfolding answer_of
  skipped-optional f value h r = ground (arith, h, r)

  answered-Keeps :
      (identity : ActorIdentity) (r : PackRevision) (s : IntakeState) (f : FieldDefinition)
      (d : Dict String String)
      → s.step ≡ Step.fields
      → Held packs library public_base_url create_order_once positive identity r s
      → Contacts d
      → Passed (suc s.field_index) (ordered_fields r.definition) d
      → Quiet (
          ask_next packs library public_base_url create_order_once identity r.definition
            (record s { field_values = d; field_index = suc s.field_index }))
  answered-Keeps identity r s f d step h c p =
      ask_next-Keeps packs library public_base_url create_order_once positive identity r
        (record s { field_values = d; field_index = suc s.field_index }) step
        (record {
          versioned = h.versioned;
          revision = h.revision;
          ready = (h.ready.0, rw step (c, p));
        })

  take_answer-Keeps :
      (identity : ActorIdentity) (r : PackRevision) (s : IntakeState) (f : FieldDefinition)
      (value : String) (answer : Answer)
      → s.step ≡ Step.fields
      → Held packs library public_base_url create_order_once positive identity r s
      → get_elem? (ordered_fields r.definition) s.field_index ≡ some f
      → answer_of packs library public_base_url create_order_once f value ≡ ok answer
      → Quiet (
          take_answer packs library public_base_url create_order_once identity r.definition s f
            answer)
  unfolding take_answer
  take_answer-Keeps identity r s f value (again reply) step h e q =
      pure-Keeps packs create_order_once reply
  take_answer-Keeps identity r s f value skipped step h e q =
      let reached : Contacts s.field_values
          × Passed s.field_index (ordered_fields r.definition) s.field_values =
        (rw step at h.ready.1) in
      answered-Keeps identity r s f s.field_values step h reached.0 (
        Passed-suc s.field_index (ordered_fields r.definition) s.field_values f reached.1 e
          (λ t. absurd (skipped-optional f value q t)))
  take_answer-Keeps identity r s f value (answered v) step h e q =
      let reached : Contacts s.field_values
          × Passed s.field_index (ordered_fields r.definition) s.field_values =
        (rw step at h.ready.1) in
      answered-Keeps identity r s f (put s.field_values f.key v) step h
        (
          ground (arith, reached.0.0, has-put s.field_values f.key "phone" v),
          ground (arith, reached.0.1, has-put s.field_values f.key "address" v),
        )
        (Passed-suc s.field_index (ordered_fields r.definition) (put s.field_values f.key v) f
          (Passed-put s.field_index (ordered_fields r.definition) s.field_values f.key v reached.1)
          e
          (λ t. ground (arith, has-put s.field_values f.key f.key v, string_eq.agrees f.key f.key)))

  pub fill_field-Keeps :
      (identity : ActorIdentity) (r : PackRevision) (s : IntakeState) (text : String)
      → s.step ≡ Step.fields
      → Held packs library public_base_url create_order_once positive identity r s
      → Quiet
          (fill_field packs library public_base_url create_order_once identity r.definition s text)
  unfolding fill_field
  fill_field-Keeps identity r s text step h =
      let fields = ordered_fields r.definition in
      let n = s.field_index in
      let reached : Contacts s.field_values × Passed n fields s.field_values =
        (rw step at h.ready.1) in
      elim (Option-cases (get_elem? fields n)) [
        | inl e ↦
            rw (fill_field, e)
              (to_confirmation-Keeps packs library public_base_url create_order_once positive
                identity r s
                (record {
                  versioned = h.versioned;
                  revision = h.revision;
                  ready = (h.ready.0, (reached.0, All-Passed n fields s.field_values reached.1 e));
                }))
        | inr (f, e) ↦
            rw (fill_field, e)
              (lift_then (answer_of packs library public_base_url create_order_once f (clip text)) _
                (λ a q. take_answer-Keeps identity r s f (clip text) a step h e q))
      ]
