-- ===== src/Domain/Events/Copies.antt =====
-- `deepcopy` of payloads, which rebuilds every list and dict, and `DomainEvent.__deepcopy__` of
-- src/dispatch_core/domain/events.py.
use dispatch_core.Shared.{◌≡◌, refl, ap, List, [], ◌∷◌}
use dispatch_core.Domain.Events.{Value, Items, Fields, Payload, DomainEvent}
use dispatch_core.Domain.Events.Value.{null, flag, number, text, instant, items, object}
use dispatch_core.Domain.Events.Items.{nil, cons}
use dispatch_core.Domain.Events.Fields.{end, field}

unfoldable mutual
  pub copy_value : Value → Value
  copy_value null = null
  copy_value (flag b) = flag b
  copy_value (number n) = number n
  copy_value (text s) = text s
  copy_value (instant t) = instant t
  copy_value (items xs) = items (copy_items xs)
  copy_value (object fs) = object (copy_fields fs)

  pub copy_items : Items → Items
  copy_items nil = nil
  copy_items (cons x xs) = cons (copy_value x) (copy_items xs)

  pub copy_fields : Fields → Fields
  copy_fields end = end
  copy_fields (field k v fs) = field k (copy_value v) (copy_fields fs)

-- `deepcopy(dict(payload), memo)`
unfoldable pub copy_payload : Payload → Payload
unfolding copy_value
copy_payload [] = []
copy_payload ((k, v) ∷ d) = (k, copy_value v) ∷ copy_payload d

unfoldable pub copy_event : DomainEvent → DomainEvent
unfolding copy_payload
copy_event e = record {
  event_id = e.event_id;
  organization_id = e.organization_id;
  aggregate_type = e.aggregate_type;
  aggregate_id = e.aggregate_id;
  aggregate_version = e.aggregate_version;
  name = e.name;
  occurred_at = e.occurred_at;
  payload = copy_payload e.payload;
}

unfoldable pub copy_events : List DomainEvent → List DomainEvent
unfolding copy_event
copy_events [] = []
copy_events (e ∷ es) = copy_event e ∷ copy_events es

mutual
  unfolding copy_value

  pub copy_value_same : (v : Value) → copy_value v ≡ v
  copy_value_same null = refl
  copy_value_same (flag b) = refl
  copy_value_same (number n) = refl
  copy_value_same (text s) = refl
  copy_value_same (instant t) = refl
  copy_value_same (items xs) = ap items (copy_items_same xs)
  copy_value_same (object fs) = ap object (copy_fields_same fs)

  copy_items_same : (xs : Items) → copy_items xs ≡ xs
  copy_items_same nil = refl
  copy_items_same (cons x xs) = rw (copy_value_same x, copy_items_same xs) refl

  copy_fields_same : (fs : Fields) → copy_fields fs ≡ fs
  copy_fields_same end = refl
  copy_fields_same (field k v fs) = rw (copy_value_same v, copy_fields_same fs) refl

pub copy_payload_same : (d : Payload) → copy_payload d ≡ d
unfolding copy_payload
copy_payload_same [] = refl
copy_payload_same ((k, v) ∷ d) = rw (copy_value_same v, copy_payload_same d) refl

pub copy_event_same : (e : DomainEvent) → copy_event e ≡ e
unfolding copy_event
copy_event_same e = rw (copy_payload_same e.payload) refl

pub copy_events_same : (es : List DomainEvent) → copy_events es ≡ es
unfolding copy_events
copy_events_same [] = refl
copy_events_same (e ∷ es) = rw (copy_event_same e, copy_events_same es) refl
