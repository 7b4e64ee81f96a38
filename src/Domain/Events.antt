-- ===== src/Domain/Events.antt =====
-- src/dispatch_core/domain/events.py. A datetime is a number of instants, and what an event takes
-- from outside, the clock's reading and `uuid4()`, is an argument.
pub mod Equality
pub mod Copies
use dispatch_core.Shared.{ℕ, Bool, String, Option, none, some}
use dispatch_core.Shared.Dict.{Dict}

abbrev pub Instant : Type 0
Instant = ℕ

-- A JSON value of a payload or of an order's details: `null`, a flag, a natural number, a text,
-- the ISO text of an instant, a list or an object.
mutual
  pub data Value : Type 0 where
    null : Value
    flag : Bool → Value
    number : ℕ → Value
    text : String → Value
    instant : ℕ → Value
    items : Items → Value
    object : Fields → Value

  pub data Items : Type 0 where
    nil : Items
    cons : Value → Items → Items

  pub data Fields : Type 0 where
    end : Fields
    field : String → Value → Fields → Fields

abbrev pub Payload : Type 0
Payload = Dict String Value

-- An optional text as a value.
abbrev pub optional : Option String → Value
optional none = null
optional (some s) = text s

-- What one call reads from outside.
pub record Ambient : Type 0 where
  pub clock : Instant
  pub uuid : String

-- `now or datetime.now(UTC)`
abbrev pub or_clock : Option Instant → Ambient → Instant
or_clock none env = env.clock
or_clock (some t) env = t

pub record DomainEvent : Type 0 where
  pub event_id : String
  pub organization_id : String
  pub aggregate_type : String
  pub aggregate_id : String
  pub aggregate_version : ℕ
  pub name : String
  pub occurred_at : Instant
  pub payload : Payload

-- `DomainEvent.create`
unfoldable pub new_event :
    String → String → String → ℕ → String → Payload → Option Instant → Ambient → DomainEvent
new_event organization_id aggregate_type aggregate_id version name payload occurred_at env =
    record {
      event_id = env.uuid;
      organization_id = organization_id;
      aggregate_type = aggregate_type;
      aggregate_id = aggregate_id;
      aggregate_version = version;
      name = name;
      occurred_at = or_clock occurred_at env;
      payload = payload;
    }
