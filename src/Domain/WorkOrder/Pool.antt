-- ===== src/Domain/WorkOrder/Pool.antt =====
-- The answers of the executors in the pool.
use dispatch_core.Shared.{
  false, string_eq, eq_iff, ◌≡◌, refl, String, Option, none, some, [], ◌∷◌, arith, All,
}
use dispatch_core.Shared.Dict.{Dict, get, put, Distinct}
use dispatch_core.Domain.Events.{Instant}
use dispatch_core.Domain.WorkOrder.Data.{PoolResponse, is_interested}
use dispatch_core.Domain.WorkOrder.Methods.{
  resolve_response, resolve_curated_responses, interested_keys, has_interest,
}

abbrev pub Responses : Type 0
Responses = Dict String PoolResponse

-- Every answer stands under its own executor.
abbrev pub IsKeyed : Responses → Type 0
IsKeyed = All (λ (p : String × PoolResponse). p.1.executor_id ≡ p.0)

pub put-IsKeyed :
    (d : Responses) (k : String) (r : PoolResponse)
    → IsKeyed d
    → r.executor_id ≡ k
    → IsKeyed (put d k r)
unfolding put
put-IsKeyed [] k r h e = (e, tt)
put-IsKeyed ((j, w) ∷ d) k r h e = ground (arith, put-IsKeyed d k r h.1 e, eq_iff j k)

pub interested_keys-put :
    (d : Responses) (k : String) (r : PoolResponse)
    → is_interested r.status ≡ false
    → interested_keys d ≡ []
    → interested_keys (put d k r) ≡ []
unfolding put interested_keys
interested_keys-put [] k r h e = ground arith
interested_keys-put ((j, w) ∷ d) k r h e = ground (arith, interested_keys-put d k r)

pub has_interest_of_keys :
    (d : Responses) (k : String) → interested_keys d ≡ [] → has_interest (get d k) ≡ false
unfolding get interested_keys
has_interest_of_keys [] k h = refl
has_interest_of_keys ((j, w) ∷ d) k h = ground (arith, has_interest_of_keys d k)

pub get_of_nil : (d : Responses) (k : String) → d ≡ [] → get d k ≡ none
unfolding get
get_of_nil [] k h = refl
get_of_nil (r ∷ d) k h = cc

module _ (selected : String) (t : Instant) where
  -- What becomes of one answer when `selected` is assigned.
  abbrev pub resolved : String → Option PoolResponse → Option PoolResponse
  resolved k none = none
  resolved k (some r) = some (resolve_response selected t k r)

  pub get-resolve :
      (d : Responses) (k : String)
      → get (resolve_curated_responses selected t d) k ≡ resolved k (get d k)
  unfolding get resolve_curated_responses
  get-resolve [] k = refl
  get-resolve ((j, r) ∷ d) k = ground (arith, get-resolve d k, eq_iff j k)

  pub resolve-IsKeyed :
      (d : Responses) → IsKeyed d → IsKeyed (resolve_curated_responses selected t d)
  unfolding resolve_curated_responses
  resolve-IsKeyed [] h = tt
  resolve-IsKeyed ((j, r) ∷ d) h = ground (arith, resolve-IsKeyed d h.1)

  pub resolve-Distinct :
      (d : Responses) → Distinct d → Distinct (resolve_curated_responses selected t d)
  unfolding resolve_curated_responses
  resolve-Distinct [] h = tt
  resolve-Distinct ((j, r) ∷ d) h = ground (arith, resolve-Distinct d h.1, get-resolve d j)

  -- Nobody is left waiting.
  pub interested_keys-resolve :
      (d : Responses) → interested_keys (resolve_curated_responses selected t d) ≡ []
  unfolding resolve_curated_responses interested_keys
  interested_keys-resolve [] = refl
  interested_keys-resolve ((j, r) ∷ d) = ground (arith, interested_keys-resolve d)
