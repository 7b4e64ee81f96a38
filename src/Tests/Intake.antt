-- ===== src/Tests/Intake.antt =====
-- A client who orders a repair, from the first message to the confirmation.
use dispatch_core.Shared.{chr}
use dispatch_core.Shared.Dict.{put}
use dispatch_core.Domain.Errors.{ok}
use dispatch_core.Domain.Events.Equality.{same_details}
use dispatch_core.Domain.OrderNumbers.{format_order_number}
use dispatch_core.Domain.OrderNumbers.Digits.{pad3}
use dispatch_core.Domain.WorkOrder
use dispatch_core.Infrastructure.AsyncMemory.{
  numbered, save_order, add_events, commit, check_versions, check_capacity, check_executor_capacity,
  occupied_pair, written, allocate_public_number,
}
use dispatch_core.Infrastructure.Memory.{check_collection_versions, write_all}
use dispatch_core.Messaging.Intake.Data.{IntakeState, Step, row_of, delete}
use dispatch_core.Messaging.Intake.Prompts.{plain}
use dispatch_core.Messaging.Intake.Changes.{request_of, submitted_text}
use dispatch_core.Messaging.Intake.Handlers.{handle_callback}
use dispatch_core.Messaging.Intake.Confirmation.{
  Confirmable, confirm_press, settled, handle_callback-settled,
}
use dispatch_core.Messaging.Intake.Again.{in_memory, handle_callback-again}
use dispatch_core.Shared.{
  ◌<◌, String, none, some, List, [], ◌∷◌, ◌≡◌, refl, arith, string_eq, pair_eq,
}
use dispatch_core.Shared.Dict.{get}
use dispatch_core.Domain.Events.{Value}
use dispatch_core.Domain.WorkOrder.{WorkOrder}
use dispatch_core.Packs.Data.{to_definition, label_among}
use dispatch_core.Packs.Industry.{field_service}
use dispatch_core.Application.AsyncService
use dispatch_core.Application.Exec.{Exec}
use dispatch_core.Application.Service.{OrderRequest}
use dispatch_core.Application.Task.{alone}
use dispatch_core.Infrastructure.AsyncMemory.{AsyncMemoryStore, async_memory}
use dispatch_core.Messaging.Intake.Data.{
  PackStore, PackRevision, Library, World, ActorIdentity, Provider,
}
use dispatch_core.Messaging.Intake.Changes.{Fresh}
use dispatch_core.Messaging.Intake.Prompts.{
  pick_service_action, services_done_action, confirm_action,
}
use dispatch_core.Shared.{true, false}
use dispatch_core.Domain.Floats.{finite}
use dispatch_core.Messaging.Intake.Handlers.{Point}
use dispatch_core.Messaging.Intake.Validity.{IsValid}
use dispatch_core.Messaging.Intake.Judgement.{Ordered}
use dispatch_core.Messaging.Intake.Updates.{
  Update, MayOrder, handle, handle_all, handle_all-IsValid, handle-Ordered,
}
use dispatch_core.Tests.Data.{env}

abbrev revision : PackRevision
revision = record { version = 1; state = "active"; definition = to_definition field_service }

abbrev packs : PackStore
packs = record { active_revision = λ o. some revision; revision = λ o v. some revision }

abbrev library : Library
library = record {
  casefold = λ s. s;
  whole_number = some;
  decimals = λ x. "0.00000";
  quote = λ s. s;
  real = λ x. Value.null;
}

abbrev service : OrderRequest → String → Exec AsyncMemoryStore WorkOrder
service request order_id s =
    alone (AsyncService.create_order_once async_memory request order_id env env) s

abbrev client : ActorIdentity
client = record {
  organization_id = "org";
  actor_id = "ann";
  role = "client";
  display_name = "Ann";
  roles = [];
  provider = Provider.telegram;
  external_user_id = "17";
}

abbrev fresh : Fresh
fresh = record { uuid = "s-1"; token = "t" }

abbrev pressing : String → List (String × String) → Update
pressing action payload = Update.press client (record { action = action; payload = payload }) fresh

abbrev plot : Point
plot = record {
  latitude = finite false 0;
  longitude = finite true 7;
  method = "map";
  address = some " Main St 1";
}

abbrev answers : List Update
answers =
    Update.message client "Hello" fresh
    ∷ Update.message client " +7 900 123-45-67 " fresh
    ∷ Update.choice "t" plot
    ∷ pressing pick_service_action (("service", "repair") ∷ [])
    ∷ pressing services_done_action []
    ∷ Update.message client "-" fresh
    ∷ Update.message client "It leaks" fresh
    ∷ []

abbrev empty : World AsyncMemoryStore
empty = record {
  sessions = [];
  dispatch = record {
    orders = [];
    tracking_sessions = [];
    outbox_events = [];
    order_number_counters = [];
  };
}

packs-positive : (o : String) (r : PackRevision) → packs.active_revision o ≡ some r → 0 < r.version
packs-positive o r e = let same : revision ≡ r = ground (arith, e) in ground (arith, same)

empty-IsValid : IsValid packs empty
unfolding get
empty-IsValid = record {
  distinct = tt;
  versioned = λ o a s e. absurd (ground arith);
  ready = λ o a s r e. absurd (ground arith);
}

handle_all-IsValid_example : IsValid packs (handle_all packs library none service answers empty)
handle_all-IsValid_example =
    handle_all-IsValid packs library none service packs-positive answers empty empty-IsValid

-- The flow gets as far as the confirmation.
answered : (w : World AsyncMemoryStore) × (handle_all packs library none service answers empty ≡ w)
unfolding handle_all
answered = (_, refl)

abbrev ready_world : World AsyncMemoryStore
ready_world = handle_all packs library none service answers empty

handle-Ordered_example :
    Ordered packs service
      (MayOrder packs library (pressing confirm_action []) ready_world)
      ready_world.dispatch
      (handle packs library none service (pressing confirm_action []) ready_world).dispatch
handle-Ordered_example =
    handle-Ordered packs library none service packs-positive (pressing confirm_action [])
      ready_world
      (handle_all-IsValid packs library none service packs-positive answers empty empty-IsValid)

-- What the answers have come to.
abbrev asked : IntakeState
asked = record {
  step = Step.confirm;
  field_values = ("phone", "+7 900") ∷ ("address", "Main St 1") ∷ ("fault", "It leaks") ∷ [];
  selected = "repair" ∷ [];
  field_index = 3;
  address_token = none;
  address_mode = none;
  service_location = none;
  submission_id = some "s-1";
  pack_version = 1;
}

abbrev asking : World AsyncMemoryStore
asking = record { sessions = (("org", "ann"), asked) ∷ []; dispatch = empty.dispatch }

asking-Confirmable : Confirmable packs client asking revision asked "s-1"
unfolding get
asking-Confirmable = record {
  there = refl;
  versioned = ground arith;
  revision = refl;
  step = refl;
  first = "repair";
  others = [];
  selected = refl;
  submission = refl;
  some_id = refl;
}

handle_callback-settled_example :
    handle_callback packs library none service client confirm_press fresh asking
    ≡ settled client revision asking
        (service (request_of library client revision.definition asked) "s-1" asking.dispatch)
handle_callback-settled_example =
    handle_callback-settled packs library none service client fresh asking revision asked "s-1"
      asking-Confirmable

placed :
    (o : WorkOrder) × (t : AsyncMemoryStore) × (in_memory env env
        (request_of library client revision.definition asked)
        "s-1"
        asking.dispatch
      ≡ (ok o, t))
unfolding AsyncService.create_order_once allocate_public_number format_order_number pad3 chr
    save_order add_events commit WorkOrder.create get put alone check_versions
    check_collection_versions check_executor_capacity check_capacity occupied_pair write_all written
    request_of
placed = (_, _, refl)

same_answers :
    same_details
      (request_of library client revision.definition asked).details
      (request_of library client revision.definition asked).details
    ≡ true
unfolding same_details request_of label_among to_definition
same_answers = refl

handle_callback-again_example :
    handle_callback packs library none
      (in_memory env env)
      client
      confirm_press
      fresh
      (record asking { dispatch = placed.1 })
    ≡ (
      ok (plain (submitted_text revision.definition placed.0)),
      record {
        sessions = delete asking.sessions (row_of client);
        dispatch = numbered "org" placed.1;
      },
    )
handle_callback-again_example =
    handle_callback-again packs library none client fresh env env env env asking revision asked
      "s-1" {o = placed.0} {t = placed.1} asking-Confirmable same_answers placed.2
