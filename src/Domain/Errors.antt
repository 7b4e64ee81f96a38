-- ===== src/Domain/Errors.antt =====
-- src/dispatch_core/domain/errors.py, and the monad of methods that may raise. A message is
-- represented by what it says, without its wording.
use dispatch_core.Shared.{ℕ, Bool, true, false, List, ◌≡◌, refl, ◌⊎◌, inl, inr}

-- What a ValueError complains of.
pub data Invalid : Type 0 where
  identity_required coordinator_required executor_required reason_required : Invalid
  sequence_not_positive : Invalid
  bad_latitude bad_longitude bad_accuracy blank_source_event : Invalid
  bad_point_count bad_persisted_count too_many_pending : Invalid
  bad_public_token bad_location_token equal_tokens session_identity_required : Invalid
  points_out_of_order : Invalid
  field_identity_required choices_required choices_of_no_enum category_identity_required : Invalid
  repeated_category pack_identity_required repeated_field unknown_pack : Invalid
  route_id_required negative_priority endpoint_of_direct_route endpoint_required : Invalid
  button_text_required url_and_location button_action_required bad_address_token : Invalid
  other_installation rollback expired issued_in_future digest_mismatch : Invalid

-- Why a transition is refused.
pub data Refusal : Type 0 where
  terminal wrong_status wrong_pool_mode other_coordinator not_assignee no_interest : Refusal
  session_inactive foreign_session : Refusal

pub data Evidence : Type 0 where
  photos : ℕ → Evidence
  comment signature customer_code : Evidence

pub data Conflict : Type 0 where
  already_exists stale_version executor_busy other_submission : Conflict

pub data Error : Type 0 where
  value_error : Invalid → Error
  invalid_transition : Refusal → Error
  evidence_missing : List Evidence → Error
  concurrency_conflict : Conflict → Error
  not_found runtime_error : Error

pub data Result {ℓ} (A : Type ℓ) : Type ℓ where
  ok : A → Result A
  err : Error → Result A

-- To split on a result and keep the equation.
pub Result-cases {ℓ} :
    {A : Type ℓ} (r : Result A) → ((a : A) × (r ≡ ok a)) ⊎ ((e : Error) × (r ≡ err e))
Result-cases (ok a) = inl (a, refl)
Result-cases (err e) = inr (e, refl)

infixl 5 ◌>>=◌ ◌>>◌
-- What follows a step that may raise.
abbrev pub ◌>>=◌ {ℓ κ} : {A : Type ℓ} {B : Type κ} → Result A → (A → Result B) → Result B
ok value >>= next = next value
err raised >>= next = err raised

-- What follows a guard.
abbrev pub ◌>>◌ {ℓ} : {B : Type ℓ} → Result (Unit {0}) → Result B → Result B
ok checked >> rest = rest
err raised >> rest = err raised

-- `if b: raise e`
abbrev pub raise_if : Bool → Error → Result (Unit {0})
raise_if true e = err e
raise_if false e = ok tt
