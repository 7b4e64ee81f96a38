-- ===== src/Messaging/Intake/Changes.antt =====
-- What the flow of src/dispatch_core/messaging/intake.py makes of a state: the next states, and the
-- request for an order.
use dispatch_core.Shared.{
  if◌then◌else◌, String, string_eq, is_empty, concat, Option, none, some, [], ◌∷◌, map,
}
use dispatch_core.Shared.Dict.{get, put}
use dispatch_core.Domain.Events.{Value, Fields, Payload}
use dispatch_core.Domain.Floats.{Float}
use dispatch_core.Domain.WorkOrder.{WorkOrder}
use dispatch_core.Packs.Data.{PackDefinition, label_for}
use dispatch_core.Application.Service.{OrderRequest}
use dispatch_core.Messaging.Replies.{Reply}
use dispatch_core.Messaging.Intake.Data.{
  IntakeState, Step, ServiceLocation, ActorIdentity, provider_value, PackRevision, Library,
}
use dispatch_core.Messaging.Intake.Prompts.{join}
use dispatch_core.Messaging.Intake.Steps.{clip, texts, with_values}

-- What an update brings from outside: `uuid4()` and `token_urlsafe(32)`.
pub record Fresh : Type 0 where
  pub uuid : String
  pub token : String

abbrev pub address_prompt : String
address_prompt =
    "📍 Укажите место выполнения работы.\n\nVPN обычно меняет IP, а не GPS, но геопозиция иногда определяется неверно. Перед отправкой проверьте точку. Если вы используете VPN, находитесь не на объекте или точка показана неправильно — выберите место на карте либо введите адрес вручную."

abbrev pub operator_label : PackDefinition → String
unfolding get
operator_label pack = elim (get pack.role_labels "operator") [
  | none ↦ "Оператор"
  | some label ↦ if is_empty label then "Оператор" else label
]

abbrev pub submitted_text : PackDefinition → WorkOrder → String
unfolding concat get
submitted_text pack order = concat "✅ Заявка" (
    concat (if is_empty order.public_number then "" else concat " " order.public_number)
      (concat " отправлена. " (concat (operator_label pack) " свяжется с вами в ближайшее время.")))

abbrev pub new_state : PackRevision → Fresh → IntakeState
new_state revision fresh = record {
  step = Step.phone;
  field_values = [];
  selected = [];
  field_index = 0;
  address_token = none;
  address_mode = none;
  service_location = none;
  submission_id = some fresh.uuid;
  pack_version = revision.version;
}

abbrev pub to_address : String → String → IntakeState → IntakeState
to_address value token state = record state {
  field_values = put state.field_values "phone" value;
  step = Step.address;
  address_token = some token;
  address_mode = none;
  service_location = none;
}

abbrev pub to_services : String → Option ServiceLocation → IntakeState → IntakeState
to_services value location state = record state {
  field_values = put state.field_values "address" value;
  step = Step.services;
  address_token = none;
  address_mode = none;
  service_location = location;
}

abbrev pub point_label : Library → Option String → Float → Float → String
unfolding clip concat
point_label library address latitude longitude =
    let given = clip (elim address [ none ↦ "" | some a ↦ a ]) in
    if is_empty given
    then concat "Точка на карте: "
        (concat (library.decimals latitude) (concat ", " (library.decimals longitude)))
    else given

-- The value of the field, or the reply that asks for it again; a skipped field has none.
pub data Answer : Type 0 where
  again : Reply → Answer
  skipped : Answer
  answered : String → Answer

abbrev pub located : Library → ServiceLocation → Value
located library p = Value.object (
    Fields.field "latitude" (library.real p.latitude) (
      Fields.field "longitude" (library.real p.longitude)
        (Fields.field "method" (Value.text p.method) Fields.end)))

-- `details["service_location"] = dict(service_location)` where there is one
unfoldable pub with_location : Library → Payload → Option ServiceLocation → Payload
unfolding put
with_location library details none = details
with_location library details (some p) = put details "service_location" (located library p)

-- The details of the order that the flow asks for.
unfoldable pub details_of : Library → PackDefinition → IntakeState → Payload
unfolding with_values label_for with_location
details_of library pack state =
    let given : Payload =
      with_values
        (("services", Value.items (texts (map (label_for pack.service_catalog) state.selected)))
          ∷ ("service_keys", Value.items (texts state.selected))
          ∷ ("pack_version", Value.number state.pack_version)
          ∷ [])
        state.field_values in
    with_location library given state.service_location

-- The arguments of `create_order_once` beside the identifier.
unfoldable pub request_of : Library → ActorIdentity → PackDefinition → IntakeState → OrderRequest
unfolding details_of concat join
request_of library identity pack state = record {
  organization_id = identity.organization_id;
  work_type = join "," state.selected;
  source = concat (provider_value identity.provider) (concat ":" identity.external_user_id);
  details = details_of library pack state;
  requester_id = some identity.actor_id;
  evidence_requirements = some pack.evidence;
  order_id = none;
}
