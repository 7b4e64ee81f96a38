-- ===== src/Messaging/Intake/Prompts.antt =====
-- The texts and buttons of src/dispatch_core/messaging/intake.py, and the greeting of
-- src/dispatch_core/messaging/cards.py.
use Prim.Native.Char.{Char, code, char}
use mathlib.Core.List.{reverse}
use dispatch_core.Shared.{
  ◌==ℕ◌, text_of, ℕ, suc, true, false, not, ◌&&◌, ◌||◌, any, leb, if◌then◌else◌, String, ◌==◌,
  string_eq, is_empty, chars, concat, Option, none, some, List, [], ◌∷◌, ◌++◌, map, length,
}
use dispatch_core.Shared.Dict.{Dict, get}
use dispatch_core.Domain.Errors.{Result, ok, raise_if, ◌>>=◌, ◌>>◌, value_error, Invalid}
use dispatch_core.Packs.Data.{
  FieldDefinition, PackDefinition, ServiceCategory, FieldType, label_for,
}
use dispatch_core.Packs.Fields.{ask}
use dispatch_core.Messaging.Replies.{ReplyButton, Reply, check_button}
use dispatch_core.Messaging.Intake.Data.{IntakeState, Library}

-- The names of the actions.
abbrev pub pick_service_action : String
pick_service_action = "intake_pick_service"

abbrev pub services_done_action : String
services_done_action = "intake_services_done"

abbrev pub confirm_action : String
confirm_action = "intake_confirm"

abbrev pub cancel_action : String
cancel_action = "intake_cancel"

abbrev pub request_location_action : String
request_location_action = "intake_request_location"

abbrev pub type_address_action : String
type_address_action = "intake_type_address"

abbrev pub continue_after_map_action : String
continue_after_map_action = "intake_continue_after_map"

abbrev pub field_choice_action : String
field_choice_action = "intake_field_choice"

-- `ReplyButton(label, action, payload, "client", row=row)`, before its check.
abbrev client_button : String → String → Dict String String → ℕ → ReplyButton
client_button label action payload row = record {
  text = label;
  action = action;
  payload = payload;
  allowed_role = some "client";
  row = row;
  url = none;
  request_location = false;
}

abbrev pub cancel_button : ReplyButton
cancel_button = client_button "Отмена" cancel_action [] 0

abbrev pub plain : String → Reply
plain message = record { text = message; buttons = [] }

abbrev pub with_cancel : String → Reply
with_cancel message = record { text = message; buttons = cancel_button ∷ [] }

abbrev pub not_configured : Reply
not_configured = plain "Приём заявок ещё не настроен. Обратитесь к администратору."

abbrev pub location_button : ReplyButton
location_button = record {
  text = "📍 Отправить геопозицию";
  action = "";
  payload = [];
  allowed_role = none;
  row = 0;
  url = none;
  request_location = true;
}

abbrev checked : ReplyButton → Result (List ReplyButton) → Result (List ReplyButton)
checked b bs = check_button b >>= λ b'. bs >>= λ bs'. ok (b' ∷ bs')

-- `_service_buttons`, from a row on
unfoldable pub category_buttons : List ServiceCategory → List String → ℕ → Result (List ReplyButton)
unfolding concat check_button
category_buttons [] selected row = ok []
category_buttons (c ∷ cs) selected row =
    checked
      (client_button (concat (if any (λ k. k == c.key) selected then "✅ " else "") c.label)
        pick_service_action (("service", c.key) ∷ []) row)
      (category_buttons cs selected (suc row))

unfoldable pub service_buttons : PackDefinition → List String → Result (List ReplyButton)
unfolding category_buttons
service_buttons pack selected =
    category_buttons pack.service_catalog.categories selected 0 >>= λ buttons. ok (
      if pack.service_catalog.multi_select
      then buttons ++ client_button "Готово" services_done_action [] (length buttons) ∷ []
      else buttons)

abbrev pub with_services : String → PackDefinition → List String → Result Reply
with_services message pack selected =
    service_buttons pack selected >>= λ buttons. ok (record { text = message; buttons = buttons })

-- `CardRenderer.greeting`
unfoldable pub greeting : PackDefinition → String
unfolding concat
greeting pack =
    if is_empty pack.branding.greeting
    then concat "Здравствуйте! Это " (concat pack.branding.name ". Выберите услугу.")
    else pack.branding.greeting

-- `_services_reply`
unfoldable pub services_reply : PackDefinition → Result Reply
unfolding greeting service_buttons
services_reply pack = with_services (greeting pack) pack []

abbrev pub confirm_buttons : List ReplyButton
confirm_buttons =
    client_button "Отправить" confirm_action [] 0 ∷ client_button "Отмена" cancel_action [] 1 ∷ []

abbrev choice_buttons : List String → ℕ → Result (List ReplyButton)
choice_buttons [] row = ok (client_button "Отмена" cancel_action [] row ∷ [])
choice_buttons (c ∷ cs) row =
    checked (client_button c field_choice_action (("value", c) ∷ []) row)
      (choice_buttons cs (suc row))

abbrev field_buttons : FieldType → List String → Result (List ReplyButton)
field_buttons FieldType.enumeration choices = choice_buttons choices 0
field_buttons _ choices = ok (cancel_button ∷ [])

-- `_ask_field`
unfoldable pub ask_field : FieldDefinition → Result Reply
unfolding ask concat check_button
ask_field f = field_buttons f.field_type f.choices >>= λ buttons. ok (record {
  text = concat (ask f) (if f.required then "" else " (или «-», чтобы пропустить)");
  buttons = buttons;
})

-- `s.rstrip("/")`, of the signs in reverse
abbrev drop_slashes : List Char → List Char
drop_slashes [] = []
drop_slashes (c ∷ cs) = let rest = drop_slashes cs in if code c ==ℕ 47 then rest else c ∷ cs

unfoldable pub without_slashes : String → String
without_slashes s = text_of (reverse (drop_slashes (reverse (chars s))))

-- `intake_address_url`
unfoldable pub intake_address_url : Library → String → String → Result String
intake_address_url library base_url token =
    raise_if (is_empty token || not (leb 43 (length (chars token))))
      (value_error Invalid.bad_address_token)
    >> ok (concat (without_slashes base_url) (concat "/address#" (library.quote token)))

abbrev map_button : String → ReplyButton
map_button url = record {
  text = "🗺 Выбрать точку на карте";
  action = "";
  payload = [];
  allowed_role = none;
  row = 1;
  url = some url;
  request_location = false;
}

abbrev map_buttons : Library → Option String → Option String → Result (List ReplyButton)
unfolding intake_address_url
map_buttons library (some base_url) (some token) =
    if not (is_empty base_url) && leb 43 (length (chars token))
    then (intake_address_url library base_url token >>= λ url. ok (
        map_button url
        ∷ client_button "✅ Продолжить после карты" continue_after_map_action [] 2
        ∷ []))
    else ok []
map_buttons library _ _ = ok []

-- The keyboard sign has the variation selector U+FE0F behind it.
abbrev pub type_address_label : String
unfolding concat
type_address_label = concat "⌨" (concat (text_of (char 65039 tt ∷ [])) " Ввести адрес")

-- `_address_buttons`.
unfoldable pub address_buttons : Library → Option String → IntakeState → Result (List ReplyButton)
unfolding intake_address_url
address_buttons library public_base_url state =
    map_buttons library public_base_url state.address_token >>= λ maps. ok (
      client_button "📍 Отправить геопозицию" request_location_action [] 0 ∷ maps
      ++ client_button type_address_label type_address_action [] 3
        ∷ client_button "Отмена" cancel_action [] 4
        ∷ [])

abbrev pub with_address : Library → Option String → String → IntakeState → Result Reply
with_address library public_base_url message state =
    address_buttons library public_base_url state >>= λ buttons.
    ok (record { text = message; buttons = buttons })

-- `separator.join(lines)`
unfoldable pub join : String → List String → String
unfolding concat
join separator [] = ""
join separator (s ∷ []) = s
join separator (s ∷ t ∷ rest) = concat s (concat separator (join separator (t ∷ rest)))

abbrev line_of : String → Option String → List String
unfolding concat
line_of label none = []
line_of label (some value) = if is_empty value then [] else concat label value ∷ []

abbrev other_lines : Dict String String → List String
unfolding concat
other_lines [] = []
other_lines ((key, value) ∷ d) =
    let rest = other_lines d in
    if key == "phone" || key == "address" then rest else concat key (concat ": " value) ∷ rest

abbrev service_line : List String → List String
unfolding join concat
service_line [] = []
service_line (label ∷ labels) = concat "Услуги: " (join ", " (label ∷ labels)) ∷ []

-- `_render_confirmation`.
unfoldable pub render_confirmation : PackDefinition → IntakeState → Reply
unfolding join concat get label_for
render_confirmation pack state = record {
  text = join "\n" (
      ("Заявка:" ∷ "" ∷ line_of "Телефон: " (get state.field_values "phone"))
      ++ line_of "Адрес: " (get state.field_values "address")
      ++ service_line (map (label_for pack.service_catalog) state.selected)
      ++ other_lines state.field_values
      ++ "" ∷ "Подтвердить отправку?" ∷ []);
  buttons = confirm_buttons;
}
