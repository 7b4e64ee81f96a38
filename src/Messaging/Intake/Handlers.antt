-- ===== src/Messaging/Intake/Handlers.antt =====
-- The updates that src/dispatch_core/messaging/intake.py handles: a text, a button, a location; and the
-- choice of a point on the map, which src/dispatch_core/infrastructure/workflow_store.py writes into
-- the state.
use dispatch_core.Shared.{
  Bool, not, ◌&&◌, if◌then◌else◌, String, ◌==◌, string_eq, Option, none, some, List, [], ◌∷◌,
  pair_eq,
}
use dispatch_core.Shared.Dict.{Dict, get}
use dispatch_core.Domain.Errors.{Result, ok}
use dispatch_core.Domain.Floats.{Float, is_within}
use dispatch_core.Domain.WorkOrder.{WorkOrder}
use dispatch_core.Packs.Data.{PackDefinition}
use dispatch_core.Application.Exec.{Exec, pure, lift, ◌>>=◌, ◌>>◌}
use dispatch_core.Application.Service.{OrderRequest}
use dispatch_core.Messaging.Replies.{Reply}
use dispatch_core.Messaging.Intake.Data.{
  IntakeState, Step, ServiceLocation, ActorIdentity, PackStore, PackRevision, Library, World, saved,
  save, clear,
}
use dispatch_core.Messaging.Intake.Prompts.{
  pick_service_action, services_done_action, confirm_action, cancel_action, request_location_action,
  type_address_action, continue_after_map_action, field_choice_action, plain, with_cancel,
  not_configured, location_button, with_services, services_reply, confirm_buttons, with_address,
}
use dispatch_core.Messaging.Intake.Changes.{Fresh, to_services, point_label}
use dispatch_core.Messaging.Intake.Flow.{
  start, pack_for_state, fill_phone, fill_address, fill_field, pick_service, finish_services,
  confirm,
}

-- `str(payload.get(key) or "")`
abbrev or_empty : Option String → String
or_empty none = ""
or_empty (some s) = s

-- What `callback_data` of a button brings: an action, and the payload's service and value.
pub record Callback : Type 0 where
  pub action : String
  pub payload : Dict String String

-- The arguments of `handle_location`.
pub record Point : Type 0 where
  pub latitude : Float
  pub longitude : Float
  pub method : String
  pub address : Option String

abbrev pub location_of : Point → ServiceLocation
location_of p = record { latitude = p.latitude; longitude = p.longitude; method = p.method }

module _ {S : Type 0} (packs : PackStore) (library : Library) (public_base_url : Option String)
    (create_order_once : OrderRequest → String → Exec S WorkOrder) where
  unfoldable pub with_pack :
      (PackDefinition → IntakeState → Exec (World S) Reply)
      → Option PackRevision
      → IntakeState
      → Exec (World S) Reply
  with_pack body none state = pure not_configured
  with_pack body (some r) state = body r.definition state

  unfoldable pub resume_from :
      ActorIdentity
      → Fresh
      → (PackDefinition → IntakeState → Exec (World S) Reply)
      → Option IntakeState
      → Exec (World S) Reply
  unfolding start pack_for_state with_pack
  resume_from identity fresh body none =
      start packs library public_base_url create_order_once identity fresh
  resume_from identity fresh body (some state) =
      pack_for_state packs library public_base_url create_order_once identity state >>= λ p.
      with_pack body p.0 p.1

  -- What every handler does first: the saved state with its pack, or a reply.
  unfoldable pub resume :
      ActorIdentity
      → Fresh
      → (PackDefinition → IntakeState → Exec (World S) Reply)
      → Exec (World S) Reply
  unfolding saved resume_from
  resume identity fresh body = saved identity >>= resume_from identity fresh body

  abbrev pub text_step :
      ActorIdentity → String → Fresh → Step → PackDefinition → IntakeState → Exec (World S) Reply
  text_step identity text fresh Step.phone pack state =
      fill_phone packs library public_base_url create_order_once identity state text fresh
  text_step identity text fresh Step.address pack state =
      fill_address packs library public_base_url create_order_once identity pack state text
  text_step identity text fresh Step.fields pack state =
      fill_field packs library public_base_url create_order_once identity pack state text
  text_step identity text fresh Step.confirm pack state =
      pure (record { text = "Нажмите «Отправить» или «Отмена»."; buttons = confirm_buttons })
  text_step identity text fresh Step.services pack state =
      lift (with_services "Выберите услугу кнопкой ниже." pack state.selected)

  unfoldable pub handle_text : ActorIdentity → String → Fresh → Exec (World S) Reply
  unfolding resume
  handle_text identity text fresh =
      resume identity fresh λ pack state. text_step identity text fresh state.step pack state

  abbrev native_reply : Reply
  native_reply = record {
    text =
        "Нажмите кнопку ниже и отправьте геопозицию устройства. Если точка неверная или вы находитесь не на объекте — вернитесь и выберите место на карте.";
    buttons = location_button ∷ [];
  }

  -- What each action does at each step.
  abbrev pub request_location : ActorIdentity → Step → IntakeState → Exec (World S) Reply
  request_location identity Step.address state =
      save identity (record state { address_mode = some "native" }) >> pure native_reply
  request_location identity _ state = pure (plain "Геопозиция сейчас не запрашивается.")

  abbrev pub type_address : ActorIdentity → Step → IntakeState → Exec (World S) Reply
  type_address identity Step.address state =
      save identity (record state { address_mode = some "text" })
      >> pure (with_cancel "Введите город, улицу и номер дома:")
  type_address identity _ state = pure (plain "Адрес уже указан.")

  abbrev pub after_map : Step → PackDefinition → IntakeState → Result Reply
  after_map Step.services pack state = services_reply pack
  after_map Step.address pack state =
      with_address library public_base_url
        "Сначала откройте карту и сохраните точку. Затем вернитесь сюда и снова нажмите «Продолжить после карты»."
        state
  after_map _ pack state = ok (plain "Точка на карте сейчас не запрашивается.")

  abbrev picked : ActorIdentity → Callback → PackDefinition → IntakeState → Exec (World S) Reply
  picked identity c pack state =
      pick_service packs library public_base_url create_order_once identity pack state
        (or_empty (get c.payload "service"))

  abbrev pub pick :
      ActorIdentity → Callback → Step → PackDefinition → IntakeState → Exec (World S) Reply
  pick identity c Step.services pack state = picked identity c pack state
  pick identity c Step.fields pack state = picked identity c pack state
  pick identity c Step.confirm pack state = picked identity c pack state
  pick identity c _ pack state =
      lift (with_services "Сначала начните новую заявку." pack state.selected)

  abbrev pub choose_value :
      ActorIdentity → Callback → Step → PackDefinition → IntakeState → Exec (World S) Reply
  choose_value identity c Step.fields pack state =
      fill_field packs library public_base_url create_order_once identity pack state
        (or_empty (get c.payload "value"))
  choose_value identity c _ pack state = pure (plain "Сначала заполните предыдущие шаги.")

  abbrev pub services_done :
      ActorIdentity → Step → PackDefinition → IntakeState → Exec (World S) Reply
  services_done identity Step.services pack state =
      finish_services packs library public_base_url create_order_once identity pack state
  services_done identity _ pack state =
      lift (with_services "Сначала выберите услуги." pack state.selected)

  abbrev pub confirmed :
      ActorIdentity → Fresh → Step → PackDefinition → IntakeState → Exec (World S) Reply
  confirmed identity fresh Step.confirm pack state =
      confirm packs library public_base_url create_order_once identity pack state fresh
  confirmed identity fresh _ pack state = pure (plain "Сначала заполните все поля.")

  -- The first case whose test holds, as a chain of `if`s with early returns.
  unfoldable pub first_case :
      List (Bool × Exec (World S) Reply) → Exec (World S) Reply → Exec (World S) Reply
  first_case [] otherwise = otherwise
  first_case ((b, m) ∷ cases) otherwise =
      let rest = first_case cases otherwise in if b then m else rest

  unfoldable pub callback_cases :
      ActorIdentity
      → Callback
      → Fresh
      → PackDefinition
      → IntakeState
      → List (Bool × Exec (World S) Reply)
  unfolding save get pick_service fill_field finish_services confirm
  callback_cases identity c fresh pack state =
      (c.action == request_location_action, request_location identity state.step state)
      ∷ (c.action == type_address_action, type_address identity state.step state)
      ∷ (c.action == continue_after_map_action, lift (after_map state.step pack state))
      ∷ (c.action == pick_service_action, pick identity c state.step pack state)
      ∷ (c.action == field_choice_action, choose_value identity c state.step pack state)
      ∷ (c.action == services_done_action, services_done identity state.step pack state)
      ∷ (c.action == confirm_action, confirmed identity fresh state.step pack state)
      ∷ []

  unfoldable pub callback_step :
      ActorIdentity → Callback → Fresh → PackDefinition → IntakeState → Exec (World S) Reply
  unfolding callback_cases first_case
  callback_step identity c fresh pack state =
      first_case (callback_cases identity c fresh pack state) (pure (plain "Неизвестное действие."))

  unfoldable pub handle_callback : ActorIdentity → Callback → Fresh → Exec (World S) Reply
  unfolding clear resume callback_step
  handle_callback identity c fresh =
      if c.action == cancel_action
      then clear identity >> pure (plain "Заявка отменена.")
      else resume identity fresh (callback_step identity c fresh)

  abbrev pub location_step :
      ActorIdentity → Point → Step → PackDefinition → IntakeState → Exec (World S) Reply
  location_step identity p Step.address pack state =
      let label = point_label library p.address p.latitude p.longitude in
      save identity (to_services label (some (location_of p)) state) >> lift (services_reply pack)
  location_step identity p _ pack state = pure (plain "Геопозиция сейчас не запрашивается.")

  unfoldable pub handle_location : ActorIdentity → Point → Fresh → Exec (World S) Reply
  unfolding resume
  handle_location identity p fresh =
      if not (is_within 90 p.latitude && is_within 180 p.longitude)
      then pure (plain "Не удалось распознать геопозицию. Выберите адрес заново.")
      else resume identity fresh λ pack state. location_step identity p state.step pack state
