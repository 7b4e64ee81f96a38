-- ===== src/Messaging/Intake/Flow.antt =====
-- The steps of the flow in src/dispatch_core/messaging/intake.py, each with the state it is given. The
-- fresh identifier or token of a step is an argument of it.
use dispatch_core.Shared.{
  suc, ◌+◌, not, ◌||◌, any, ltb, if◌then◌else◌, String, ◌==◌, string_eq, is_empty, chars, concat,
  Option, none, some, [], ◌∷◌, length, drop,
}
use dispatch_core.Shared.Dict.{put}
use dispatch_core.Domain.Errors
use dispatch_core.Domain.Errors.{Result, ok}
use dispatch_core.Domain.WorkOrder.{WorkOrder}
use dispatch_core.Packs.Data.{FieldDefinition, PackDefinition, is_integer}
use dispatch_core.Packs.Fields.{ask, ordered_fields}
use dispatch_core.Application.Exec.{Exec, pure, lift, ◌>>=◌, ◌>>◌}
use dispatch_core.Application.Service.{OrderRequest}
use dispatch_core.Messaging.Replies.{Reply}
use dispatch_core.Messaging.Intake.Data.{
  IntakeState, Step, ActorIdentity, PackRevision, PackStore, Library, World, save, clear,
}
use dispatch_core.Messaging.Intake.Prompts.{
  plain, with_cancel, not_configured, with_services, services_reply, ask_field, with_address,
  render_confirmation,
}
use dispatch_core.Messaging.Intake.Steps.{
  clip, sign_count, get_elem?, filled_ahead, normalize_field_value, toggle,
}
use dispatch_core.Messaging.Intake.Changes.{
  Fresh, address_prompt, submitted_text, new_state, to_address, to_services, Answer, request_of,
  again, skipped, answered,
}

module _ {S : Type 0} (packs : PackStore) (library : Library) (public_base_url : Option String)
    (create_order_once : OrderRequest → String → Exec S WorkOrder) where
  unfoldable pub start : ActorIdentity → Fresh → Exec (World S) Reply
  unfolding save
  start identity fresh = elim (packs.active_revision identity.organization_id) [
    | none ↦ pure not_configured
    | some revision ↦
        save identity (new_state revision fresh) >> pure (with_cancel "Введите ваш телефон:")
  ]

  -- `_pack_for_state`, with the state that it leaves
  unfoldable pub pack_for_state :
      ActorIdentity → IntakeState → Exec (World S) (Option PackRevision × IntakeState)
  unfolding save
  pack_for_state identity state =
      if ltb 0 state.pack_version
      then pure (packs.revision identity.organization_id state.pack_version, state)
      else elim (packs.active_revision identity.organization_id) [
        | none ↦ pure (none, state)
        | some revision ↦
            let state' : IntakeState = record state { pack_version = revision.version } in
            save identity state' >> pure (some revision, state')
      ]

  unfoldable pub to_confirmation :
      ActorIdentity → PackDefinition → IntakeState → Exec (World S) Reply
  unfolding save render_confirmation
  to_confirmation identity pack state =
      let state' : IntakeState = record state { step = Step.confirm } in
      save identity state' >> pure (render_confirmation pack state')

  unfoldable pub fill_phone : ActorIdentity → IntakeState → String → Fresh → Exec (World S) Reply
  unfolding save clip
  fill_phone identity state text fresh =
      let value = clip text in
      if is_empty value || ltb (sign_count value) 7
      then pure (with_cancel "Введите корректный номер телефона (минимум 7 цифр):")
      else (let state' : IntakeState = to_address value fresh.token state in
          save identity state' >> lift (with_address library public_base_url address_prompt state'))

  unfoldable pub fill_address :
      ActorIdentity → PackDefinition → IntakeState → String → Exec (World S) Reply
  unfolding save clip
  fill_address identity pack state text =
      let value = clip text in
      if is_empty value || ltb (length (chars value)) 5
      then pure (with_cancel "Введите адрес подробнее (минимум 5 символов):")
      else save identity (to_services value none state) >> lift (services_reply pack)

  -- The search for the next field to ask for, from the saved index on.
  unfoldable pub ask_next : ActorIdentity → PackDefinition → IntakeState → Exec (World S) Reply
  unfolding save to_confirmation ask_field ordered_fields filled_ahead
  ask_next identity pack state =
      let fields = ordered_fields pack in
      let index =
        state.field_index + filled_ahead (drop state.field_index fields) state.field_values in
      elim (get_elem? fields index) [
        | none ↦ to_confirmation identity pack (record state { field_index = index })
        | some f ↦ save identity (record state { field_index = index }) >> lift (ask_field f)
      ]

  unfoldable pub finish_services :
      ActorIdentity → PackDefinition → IntakeState → Exec (World S) Reply
  unfolding save to_confirmation ask_field ordered_fields filled_ahead
  finish_services identity pack state = elim state.selected [
    | [] ↦ lift (with_services "Выберите хотя бы одну услугу." pack [])
    | k ∷ ks ↦
        let state' : IntakeState = record state { step = Step.fields } in
        let index = filled_ahead (ordered_fields pack) state.field_values in
        elim (get_elem? (ordered_fields pack) index) [
          | none ↦ to_confirmation identity pack state'
          | some f ↦ save identity (record state' { field_index = index }) >> lift (ask_field f)
        ]
  ]

  unfoldable pub pick_service :
      ActorIdentity → PackDefinition → IntakeState → String → Exec (World S) Reply
  unfolding save finish_services toggle
  pick_service identity pack state key =
      let chosen = toggle key state.selected in
      if not (any (λ c. c.key == key) pack.service_catalog.categories)
      then pure (plain "Услуга недоступна.")
      else if not pack.service_catalog.multi_select
      then finish_services identity pack (record state { selected = key ∷ [] })
      else (save identity (record state { selected = chosen })
          >> lift (with_services "Отметьте услуги и нажмите «Готово»." pack chosen))

  -- The answer to a field, of the text that came
  unfoldable pub answer_of : FieldDefinition → String → Result Answer
  unfolding ask concat normalize_field_value ask_field
  answer_of f value =
      if is_empty value || value == "-"
      then (if f.required
          then ok (again (with_cancel (concat "Это поле обязательно. " (ask f))))
          else ok skipped)
      else elim (normalize_field_value library f value) [
        | some normalized ↦ ok (answered normalized)
        | none ↦
            if is_integer f.field_type
            then ok (again (with_cancel "Введите целое число:"))
            else (Errors.◌>>=◌ (ask_field f) λ r. ok (
                again (record {
                  text = "Выберите один из предложенных вариантов:";
                  buttons = r.buttons;
                })))
      ]

  -- What follows an answer to the field `f`
  unfoldable pub take_answer :
      ActorIdentity → PackDefinition → IntakeState → FieldDefinition → Answer → Exec (World S) Reply
  unfolding ask_next put
  take_answer identity pack state f (again reply) = pure reply
  take_answer identity pack state f skipped =
      ask_next identity pack (record state { field_index = suc state.field_index })
  take_answer identity pack state f (answered value) = ask_next identity pack (record state {
    field_values = put state.field_values f.key value;
    field_index = suc state.field_index;
  })

  unfoldable pub fill_field :
      ActorIdentity → PackDefinition → IntakeState → String → Exec (World S) Reply
  unfolding to_confirmation ordered_fields answer_of take_answer clip
  fill_field identity pack state text = elim (get_elem? (ordered_fields pack) state.field_index) [
    | none ↦ to_confirmation identity pack state
    | some f ↦ lift (answer_of f (clip text)) >>= λ answer. take_answer identity pack state f answer
  ]

  -- The identifier of the submission, made and saved where there is none
  unfoldable pub submission_id_of :
      ActorIdentity → IntakeState → Fresh → Exec (World S) (String × IntakeState)
  unfolding save
  submission_id_of identity state fresh =
      let state' : IntakeState = record state { submission_id = some fresh.uuid } in
      elim state.submission_id [
        | none ↦ save identity state' >> pure (fresh.uuid, state')
        | some given ↦
            if is_empty given
            then save identity state' >> pure (fresh.uuid, state')
            else pure (given, state)
      ]

  -- The call of the service, which leaves the sessions alone.
  unfoldable pub submit : OrderRequest → String → Exec (World S) WorkOrder
  submit request order_id w =
      let (r, s) = create_order_once request order_id w.dispatch in (r, record w { dispatch = s })

  unfoldable pub confirm :
      ActorIdentity → PackDefinition → IntakeState → Fresh → Exec (World S) Reply
  unfolding start request_of submission_id_of submit clear concat
  confirm identity pack state fresh = elim state.selected [
    | [] ↦ start identity fresh
    | k ∷ ks ↦ (do
      let request = request_of library identity pack state
      (order_id, state') ← submission_id_of identity state fresh
      order ← submit request order_id
      clear identity
      pure (plain (submitted_text pack order)))
  ]
