-- ===== src/Domain/WorkOrder/Recording.antt =====
-- What a command that succeeds writes: nothing, or one event and the next version.
use dispatch_core.Shared.{
  ◌+◌, Bool, true, false, ◌≡◌, ◌⊎◌, inl, inr, Option, [], ◌∷◌, ◌++◌, arith, String, strip, length,
  string_eq, Bool-cases, is_some_of,
}
use dispatch_core.Shared.Dict.{get}
use dispatch_core.Domain.Errors.{ok}
use dispatch_core.Domain.Events.{
  DomainEvent, Ambient, Instant, Payload, text, number, optional, or_clock,
}
use dispatch_core.Domain.WorkOrder.Data.{WorkOrder, mode_value}
use dispatch_core.Domain.WorkOrder.Methods.{has_interest}
use dispatch_core.Domain.WorkOrder.Commands.{Command, apply}

-- The name of the event that a command records.
abbrev pub event_name : Command → String
event_name (Command.claim_coordination c) = "work_order.coordination_claimed"
event_name (Command.publish_pool m a) = "work_order.pool_published"
event_name (Command.express_interest e) = "work_order.pool_interest_recorded"
event_name (Command.withdraw_interest e) = "work_order.pool_interest_withdrawn"
event_name (Command.claim_first e) = "work_order.first_claim_won"
event_name (Command.assign e a) = "work_order.assigned"
event_name (Command.accept e) = "work_order.accepted"
event_name (Command.reject_assignment e) = "work_order.assignment_rejected"
event_name (Command.start_travel e) = "work_order.travel_started"
event_name (Command.start_work e) = "work_order.started"
event_name (Command.complete e r) = "work_order.completed"
event_name (Command.cancel r a) = "work_order.cancelled"

-- Its payload.
abbrev pub event_payload : Command → Payload
event_payload (Command.claim_coordination c) = ("coordinator_id", text c) ∷ []
event_payload (Command.publish_pool m a) =
    ("mode", text (mode_value m)) ∷ ("actor_id", optional a) ∷ []
event_payload (Command.assign e a) = ("executor_id", text e) ∷ ("actor_id", optional a) ∷ []
event_payload (Command.complete e r) =
    ("executor_id", text e) ∷ ("photo_count", number (length r.photo_refs)) ∷ []
event_payload (Command.cancel r a) = ("reason", text (strip r)) ∷ ("actor_id", optional a) ∷ []
event_payload (Command.express_interest e) = ("executor_id", text e) ∷ []
event_payload (Command.withdraw_interest e) = ("executor_id", text e) ∷ []
event_payload (Command.claim_first e) = ("executor_id", text e) ∷ []
event_payload (Command.accept e) = ("executor_id", text e) ∷ []
event_payload (Command.reject_assignment e) = ("executor_id", text e) ∷ []
event_payload (Command.start_travel e) = ("executor_id", text e) ∷ []
event_payload (Command.start_work e) = ("executor_id", text e) ∷ []

-- The event of an order's next version.
abbrev pub next_event : String → Payload → Option Instant → Ambient → WorkOrder → DomainEvent
next_event name payload now env o = record {
  event_id = env.uuid;
  organization_id = o.organization_id;
  aggregate_type = "work_order";
  aggregate_id = o.id;
  aggregate_version = o.version + 1;
  name = name;
  occurred_at = or_clock now env;
  payload = payload;
}

-- From `o` to `o'` one event was recorded, and what identifies the order stayed.
pub record Records (c : Command) (now : Option Instant) (env : Ambient) (o o' : WorkOrder)
    : Type 0 where
  pub version : o'.version ≡ o.version + 1
  pub updated_at : o'.updated_at ≡ or_clock now env
  pub events : o'.events ≡ o.events ++ next_event (event_name c) (event_payload c) now env o ∷ []
  pub id : o'.id ≡ o.id
  pub public_number : o'.public_number ≡ o.public_number
  pub organization_id : o'.organization_id ≡ o.organization_id
  pub work_type : o'.work_type ≡ o.work_type
  pub source : o'.source ≡ o.source
  pub details : o'.details ≡ o.details
  pub requester_id : o'.requester_id ≡ o.requester_id
  pub evidence_requirements : o'.evidence_requirements ≡ o.evidence_requirements
  pub created_at : o'.created_at ≡ o.created_at

-- The two commands that say again what already holds.
abbrev pub is_repeat : Command → WorkOrder → Bool
is_repeat (Command.claim_coordination c) o = is_some_of o.coordinator_id c
is_repeat (Command.express_interest e) o = has_interest (get o.pool_responses e)
is_repeat _ o = false

module _ (now : Option Instant) (env : Ambient) (o : WorkOrder) {o' : WorkOrder} where
  apply-repeat : (c : Command) → apply c now env o ≡ ok o' → is_repeat c o ≡ true → o' ≡ o
  unfolding apply
  apply-repeat (Command.claim_coordination c) h r = ground arith
  apply-repeat (Command.express_interest c) h r = ground arith
  apply-repeat _ h r = cc

  apply-Records_new :
      (c : Command) → apply c now env o ≡ ok o' → is_repeat c o ≡ false → Records c now env o o'
  unfolding apply
  apply-Records_new (Command.claim_coordination c) h r = ground arith
  apply-Records_new (Command.publish_pool m a) h r = ground arith
  apply-Records_new (Command.express_interest e) h r = ground arith
  apply-Records_new (Command.withdraw_interest e) h r = ground arith
  apply-Records_new (Command.claim_first e) h r = ground arith
  apply-Records_new (Command.assign e a) h r = ground arith
  apply-Records_new (Command.accept e) h r = ground arith
  apply-Records_new (Command.reject_assignment e) h r = ground arith
  apply-Records_new (Command.start_travel e) h r = ground arith
  apply-Records_new (Command.start_work e) h r = ground arith
  apply-Records_new (Command.complete e r') h r = ground arith
  apply-Records_new (Command.cancel x a) h r = ground arith

  -- A command that succeeds leaves the order as it was, if it only repeats what holds, and
  -- otherwise records exactly one event, numbered by the next version.
  pub apply-Records :
      (c : Command)
      → apply c now env o ≡ ok o'
      → ((is_repeat c o ≡ true) × (o' ≡ o)) ⊎ ((is_repeat c o ≡ false) × Records c now env o o')
  apply-Records c h = elim (Bool-cases (is_repeat c o)) [
    | inl r ↦ inl (r, apply-repeat c h r)
    | inr r ↦ inr (r, apply-Records_new c h r)
  ]
