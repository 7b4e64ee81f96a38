-- ===== src/Messaging/Intake/Data.antt =====
-- The state of one client's flow (src/dispatch_core/messaging/intake.py), the table of these states as
-- src/dispatch_core/infrastructure/workflow_store.py keeps it, and what the coordinator calls.
use dispatch_core.Shared.{
  ◌||◌, any, ℕ, Bool, true, false, if◌then◌else◌, String, ◌==◌, string_eq, pair_eq, Option, none,
  some, List, [], ◌∷◌,
}
use dispatch_core.Shared.Dict.{Dict, get, put}
use dispatch_core.Domain.Events.{Value}
use dispatch_core.Domain.Floats.{Float}
use dispatch_core.Packs.Data.{PackDefinition}
use dispatch_core.Application.Exec.{Exec, gets, modify}

pub data Step : Type 0 where
  phone address services fields confirm : Step

pub record ServiceLocation : Type 0 where
  pub latitude : Float
  pub longitude : Float
  pub method : String

-- The dictionary of the state. A missing `field_values` or `selected` is empty and a missing
-- `field_index` or `pack_version` is 0, as every reading of them has it.
pub record IntakeState : Type 0 where
  pub step : Step
  pub field_values : Dict String String
  pub selected : List String
  pub field_index : ℕ
  pub address_token : Option String
  pub address_mode : Option String
  pub service_location : Option ServiceLocation
  pub submission_id : Option String
  pub pack_version : ℕ

pub data Provider : Type 0 where
  telegram max : Provider

abbrev pub provider_value : Provider → String
provider_value Provider.telegram = "telegram"
provider_value Provider.max = "max"

pub record ActorIdentity : Type 0 where
  pub organization_id : String
  pub actor_id : String
  pub role : String
  pub display_name : String
  pub provider : Provider
  pub external_user_id : String
  pub roles : List String

-- `role == self.role or role in self.roles`
unfoldable pub has_role : ActorIdentity → String → Bool
has_role identity role = (role == identity.role) || any (λ r. r == role) identity.roles

pub record PackRevision : Type 0 where
  pub version : ℕ
  pub state : String
  pub definition : PackDefinition

-- The pack store: `active_revision`, and `revision` of a version.
pub record PackStore : Type 0 where
  pub active_revision : String → Option PackRevision
  pub revision : String → ℕ → Option PackRevision

-- What Python's library does with texts: `str.casefold`, `str(int(s))` or none where `int` raises,
-- the five decimals of a point, `quote(s, safe='')`, and a double in a JSON value.
pub record Library : Type 0 where
  pub casefold : String → String
  pub whole_number : String → Option String
  pub decimals : Float → String
  pub quote : String → String
  pub real : Float → Value

-- The rows of `intake_sessions` by organization and actor, and the store behind the service.
pub record World (S : Type 0) : Type 0 where
  pub sessions : Dict (String × String) IntakeState
  pub dispatch : S

abbrev pub row_of : ActorIdentity → String × String
row_of identity = (identity.organization_id, identity.actor_id)

-- `DELETE ... WHERE`
unfoldable pub delete :
    Dict (String × String) IntakeState → String × String → Dict (String × String) IntakeState
delete [] k = []
delete ((j, s) ∷ d) k = let rest = delete d k in if j == k then rest else (j, s) ∷ rest

module _ {S : Type 0} where
  -- `self._sessions.get`
  unfoldable pub saved : ActorIdentity → Exec (World S) (Option IntakeState)
  saved identity = gets λ w. get w.sessions (row_of identity)

  -- `self._save`; the provider and the mark of the event that is handled are left out of the row.
  unfoldable pub save : ActorIdentity → IntakeState → Exec (World S) (Unit {0})
  save identity state = modify λ w. record w { sessions = put w.sessions (row_of identity) state }

  -- `self._sessions.clear`
  unfoldable pub clear : ActorIdentity → Exec (World S) (Unit {0})
  unfolding delete
  clear identity = modify λ w. record w { sessions = delete w.sessions (row_of identity) }

-- `k in d`
unfoldable pub has : {V : Type 0} → Dict String V → String → Bool
has d k = elim (get d k) [ none ↦ false | some v ↦ true ]
