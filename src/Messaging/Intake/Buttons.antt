-- ===== src/Messaging/Intake/Buttons.antt =====
-- What each button does to the saved states and the orders (src/dispatch_core/messaging/intake.py).
use dispatch_core.Shared.{
  ◌<◌, Bool, true, false, String, ◌==◌, string_eq, pair_eq, Option, some, List, [], ◌∷◌, ◌≡◌, All,
  refl, Bool-cases, inl, inr,
}
use dispatch_core.Domain.WorkOrder.{WorkOrder}
use dispatch_core.Application.Exec.{Exec}
use dispatch_core.Application.Service.{OrderRequest}
use dispatch_core.Messaging.Replies.{Reply}
use dispatch_core.Messaging.Intake.Data.{
  IntakeState, Step, PackStore, Library, PackRevision, World, ActorIdentity,
}
use dispatch_core.Messaging.Intake.Prompts.{plain, cancel_action}
use dispatch_core.Messaging.Intake.Changes.{Fresh}
use dispatch_core.Messaging.Intake.Passed.{Given, Passed}
use dispatch_core.Packs.Fields.{ordered_fields}
use dispatch_core.Messaging.Intake.Handlers.{
  request_location, type_address, pick, choose_value, services_done, confirmed, first_case,
  callback_cases, Callback, callback_step, handle_callback,
}
use dispatch_core.Messaging.Intake.Validity.{Contacts, Confirms, FromState}
use dispatch_core.Messaging.Intake.Judgement.{
  Keeps, Sound, Answers, Keeps-Answers, Keeps-Sound, pure-Keeps, lift-Keeps, bind-Keeps,
  clear-Keeps,
}
use dispatch_core.Messaging.Intake.Ready.{Held, save_then, finish_services-Keeps}
use dispatch_core.Messaging.Intake.Fields.{pick_service-Keeps, fill_field-Keeps}
use dispatch_core.Messaging.Intake.Sound.{confirm-Sound, resume-Answers}

module _ {S : Type 0} (packs : PackStore) (library : Library) (public_base_url : Option String)
    (create_order_once : OrderRequest → String → Exec S WorkOrder)
    (positive : (o : String) (r : PackRevision)
      → packs.active_revision o ≡ some r
      → 0 < r.version) where
  abbrev IsHeld : ActorIdentity → PackRevision → IntakeState → Type 0
  IsHeld identity r s = Held packs library public_base_url create_order_once positive identity r s

  abbrev IsQuiet : {A : Type 0} → Exec (World S) A → Type 0
  IsQuiet m = Keeps packs create_order_once m

  still :
      {May : OrderRequest → Type 0} {m : Exec (World S) Reply}
      → IsQuiet m
      → Sound packs create_order_once May m
  still k = Keeps-Sound packs create_order_once k

  request_location-Keeps :
      (identity : ActorIdentity) (r : PackRevision) (s : IntakeState) (step : Step)
      → s.step ≡ step
      → IsHeld identity r s
      → IsQuiet (request_location packs library public_base_url create_order_once identity step s)
  request_location-Keeps identity r s Step.address e h =
      save_then packs library public_base_url create_order_once positive identity r _ _
        (record { versioned = h.versioned; revision = h.revision; ready = h.ready })
        (pure-Keeps packs create_order_once _)
  request_location-Keeps identity r s Step.phone e h = pure-Keeps packs create_order_once _
  request_location-Keeps identity r s Step.services e h = pure-Keeps packs create_order_once _
  request_location-Keeps identity r s Step.fields e h = pure-Keeps packs create_order_once _
  request_location-Keeps identity r s Step.confirm e h = pure-Keeps packs create_order_once _

  type_address-Keeps :
      (identity : ActorIdentity) (r : PackRevision) (s : IntakeState) (step : Step)
      → s.step ≡ step
      → IsHeld identity r s
      → IsQuiet (type_address packs library public_base_url create_order_once identity step s)
  type_address-Keeps identity r s Step.address e h =
      save_then packs library public_base_url create_order_once positive identity r _ _
        (record { versioned = h.versioned; revision = h.revision; ready = h.ready })
        (pure-Keeps packs create_order_once _)
  type_address-Keeps identity r s Step.phone e h = pure-Keeps packs create_order_once _
  type_address-Keeps identity r s Step.services e h = pure-Keeps packs create_order_once _
  type_address-Keeps identity r s Step.fields e h = pure-Keeps packs create_order_once _
  type_address-Keeps identity r s Step.confirm e h = pure-Keeps packs create_order_once _

  pick-Keeps :
      (identity : ActorIdentity) (c : Callback) (r : PackRevision) (s : IntakeState) (step : Step)
      → s.step ≡ step
      → IsHeld identity r s
      → IsQuiet
          (pick packs library public_base_url create_order_once identity c step r.definition s)
  pick-Keeps identity c r s Step.services e h =
      pick_service-Keeps packs library public_base_url create_order_once positive identity r s _
        (rw e at h.ready.1) h
  pick-Keeps identity c r s Step.fields e h =
      let reached : Contacts s.field_values
          × Passed s.field_index (ordered_fields r.definition) s.field_values =
        (rw e at h.ready.1) in
      pick_service-Keeps packs library public_base_url create_order_once positive identity r s _
        reached.0 h
  pick-Keeps identity c r s Step.confirm e h =
      let reached : Contacts s.field_values
          × All (Given s.field_values) (ordered_fields r.definition) =
        (rw e at h.ready.1) in
      pick_service-Keeps packs library public_base_url create_order_once positive identity r s _
        reached.0 h
  pick-Keeps identity c r s Step.phone e h = lift-Keeps packs create_order_once _
  pick-Keeps identity c r s Step.address e h = lift-Keeps packs create_order_once _

  choose_value-Keeps :
      (identity : ActorIdentity) (c : Callback) (r : PackRevision) (s : IntakeState) (step : Step)
      → s.step ≡ step
      → IsHeld identity r s
      → IsQuiet (
          choose_value packs library public_base_url create_order_once identity c step r.definition
            s)
  choose_value-Keeps identity c r s Step.fields e h =
      fill_field-Keeps packs library public_base_url create_order_once positive identity r s _ e h
  choose_value-Keeps identity c r s Step.phone e h = pure-Keeps packs create_order_once _
  choose_value-Keeps identity c r s Step.address e h = pure-Keeps packs create_order_once _
  choose_value-Keeps identity c r s Step.services e h = pure-Keeps packs create_order_once _
  choose_value-Keeps identity c r s Step.confirm e h = pure-Keeps packs create_order_once _

  services_done-Keeps :
      (identity : ActorIdentity) (r : PackRevision) (s : IntakeState) (step : Step)
      → s.step ≡ step
      → IsHeld identity r s
      → IsQuiet (
          services_done packs library public_base_url create_order_once identity step r.definition
            s)
  services_done-Keeps identity r s Step.services e h =
      finish_services-Keeps packs library public_base_url create_order_once positive identity r s
        (rw e at h.ready.1) h
  services_done-Keeps identity r s Step.phone e h = lift-Keeps packs create_order_once _
  services_done-Keeps identity r s Step.address e h = lift-Keeps packs create_order_once _
  services_done-Keeps identity r s Step.fields e h = lift-Keeps packs create_order_once _
  services_done-Keeps identity r s Step.confirm e h = lift-Keeps packs create_order_once _

  confirmed-Sound :
      (identity : ActorIdentity) (fresh : Fresh) (r : PackRevision) (s : IntakeState) (step : Step)
      → s.step ≡ step
      → IsHeld identity r s
      → Sound packs create_order_once (Confirms library identity r s) (
          confirmed packs library public_base_url create_order_once identity fresh step r.definition
            s)
  confirmed-Sound identity fresh r s Step.confirm e h =
      confirm-Sound packs library public_base_url create_order_once positive identity r s fresh e h
  confirmed-Sound identity fresh r s Step.phone e h =
      Keeps-Sound packs create_order_once (pure-Keeps packs create_order_once _)
  confirmed-Sound identity fresh r s Step.address e h =
      Keeps-Sound packs create_order_once (pure-Keeps packs create_order_once _)
  confirmed-Sound identity fresh r s Step.services e h =
      Keeps-Sound packs create_order_once (pure-Keeps packs create_order_once _)
  confirmed-Sound identity fresh r s Step.fields e h =
      Keeps-Sound packs create_order_once (pure-Keeps packs create_order_once _)

  first_case-Sound :
      (May : OrderRequest → Type 0) (cases : List (Bool × Exec (World S) Reply))
      (otherwise : Exec (World S) Reply)
      → All (λ p. Sound packs create_order_once May p.1) cases
      → Sound packs create_order_once May otherwise
      → Sound packs create_order_once May
          (first_case packs library public_base_url create_order_once cases otherwise)
  unfolding first_case
  first_case-Sound May [] otherwise h o = o
  first_case-Sound May ((true, m) ∷ cases) otherwise h o = h.0
  first_case-Sound May ((false, m) ∷ cases) otherwise h o =
      first_case-Sound May cases otherwise h.1 o

  callback_step-Sound :
      (identity : ActorIdentity) (c : Callback) (fresh : Fresh) (r : PackRevision) (s : IntakeState)
      → IsHeld identity r s
      → Sound packs create_order_once (Confirms library identity r s) (
          callback_step packs library public_base_url create_order_once identity c fresh
            r.definition s)
  unfolding callback_step callback_cases
  callback_step-Sound identity c fresh r s h =
      first_case-Sound (Confirms library identity r s)
        (callback_cases packs library public_base_url create_order_once identity c fresh
          r.definition s)
        _
        (
          still (request_location-Keeps identity r s s.step refl h),
          (
            still (type_address-Keeps identity r s s.step refl h),
            (
              still (lift-Keeps packs create_order_once _),
              (
                still (pick-Keeps identity c r s s.step refl h),
                (
                  still (choose_value-Keeps identity c r s s.step refl h),
                  (
                    still (services_done-Keeps identity r s s.step refl h),
                    (confirmed-Sound identity fresh r s s.step refl h, tt),
                  ),
                ),
              ),
            ),
          ),
        )
        (still (pure-Keeps packs create_order_once _))

  pub handle_callback-Answers :
      (identity : ActorIdentity) (c : Callback) (fresh : Fresh)
      → Answers packs create_order_once
          (λ w. FromState packs identity w (Confirms library identity))
          (handle_callback packs library public_base_url create_order_once identity c fresh)
  unfolding handle_callback
  handle_callback-Answers identity c fresh = elim (Bool-cases (c.action == cancel_action)) [
    | inl e ↦
        rw (handle_callback, e)
          (Keeps-Answers packs create_order_once (
            bind-Keeps packs create_order_once _ _ (clear-Keeps packs create_order_once identity)
              (λ _. pure-Keeps packs create_order_once (plain "Заявка отменена."))))
    | inr e ↦
        rw (handle_callback, e)
          (resume-Answers packs library public_base_url create_order_once positive identity fresh
            (Confirms library identity) _ (λ r s h. callback_step-Sound identity c fresh r s h))
  ]
