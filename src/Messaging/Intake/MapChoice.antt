-- ===== src/Messaging/Intake/MapChoice.antt =====
-- The choice of a point on the map: `select_address_by_token` of
-- src/dispatch_core/infrastructure/workflow_store.py, which writes into the state of the flow without
-- the coordinator. Of its result the provider and the point, which the caller gave, are left out.
use dispatch_core.Shared.{
  Bool, true, false, ◌&&◌, if◌then◌else◌, String, is_some_of, pair_eq, Option, none, some, [], ◌∷◌,
  ◌≡◌, refl, sym, ap, ◌∙◌, arith, Bool-cases, inl, inr,
}
use dispatch_core.Shared.Dict.{Dict, get, put, Distinct}
use dispatch_core.Domain.Errors.{ok}
use dispatch_core.Application.Exec.{Exec}
use dispatch_core.Messaging.Intake.Data.{IntakeState, Step, Library, World, PackStore, has}
use dispatch_core.Messaging.Intake.Changes.{to_services, point_label}
use dispatch_core.Messaging.Intake.Handlers.{Point}
use dispatch_core.Messaging.Intake.Passed.{has-put}
use dispatch_core.Messaging.Intake.Validity.{IsReady, IsValid}
use dispatch_core.Messaging.Intake.Judgement.{put-IsValid}
use dispatch_core.Packs.Data.{PackDefinition}

abbrev pub Row : Type 0
Row = (String × String) × IntakeState

abbrev is_address : Step → Bool
is_address Step.address = true
is_address _ = false

abbrev awaits : String → IntakeState → Bool
awaits token s = is_some_of s.address_token token && is_address s.step

-- The row whose state has the token, at the address step.
unfoldable pub row_of_token : String → Dict (String × String) IntakeState → Option Row
row_of_token token [] = none
row_of_token token ((k, s) ∷ d) =
    let rest = row_of_token token d in if awaits token s then some (k, s) else rest

unfoldable pub chosen_state : Library → Point → IntakeState → IntakeState
chosen_state library p s =
    to_services (point_label library p.address p.latitude p.longitude)
      (some (record { latitude = p.latitude; longitude = p.longitude; method = "map" })) s

unfoldable pub write_choice : {S : Type 0} → Library → Point → Option Row → World S → World S
unfolding put chosen_state
write_choice library p none w = w
write_choice library p (some (k, s)) w = record w {
  sessions = put w.sessions k (chosen_state library p s);
}

-- The row that is written, with its new label, and the table.
unfoldable pub select_address_by_token :
    {S : Type 0} → Library → String → Point → Exec (World S) (Option ((String × String) × String))
unfolding row_of_token write_choice
select_address_by_token library token p w =
    let row = row_of_token token w.sessions in
    (
      ok (elim row [
        | none ↦ none
        | some r ↦ some (r.0, point_label library p.address p.latitude p.longitude)
      ]),
      write_choice library p row w,
    )

address_step : (x : Step) → is_address x ≡ true → x ≡ Step.address
address_step Step.address h = refl
address_step Step.phone h = absurd (ground (arith, h))
address_step Step.services h = absurd (ground (arith, h))
address_step Step.fields h = absurd (ground (arith, h))
address_step Step.confirm h = absurd (ground (arith, h))

-- In a table with one row for each key, the row that is found stands under its key.
pub row_of_token-get :
    (token : String) (d : Dict (String × String) IntakeState) (k : String × String)
    (s : IntakeState)
    → Distinct d
    → row_of_token token d ≡ some (k, s)
    → (get d k ≡ some s) × (s.step ≡ Step.address)
unfolding row_of_token get
row_of_token-get token [] k s h e = absurd (ground (arith, e))
row_of_token-get token ((j, t) ∷ d) k s h e = elim (Bool-cases (awaits token t)) [
  | inl a ↦
      let first : Row = (j, t) in
      let found : Row = (k, s) in
      let same : first ≡ found = ground (arith, e, a) in
      let here : is_address t.step ≡ true = ground (arith, a) in
      let key : j ≡ k = ap (λ r. r.0) same in
      let state : t ≡ s = ap (λ r. r.1) same in
      (
        ground (arith, pair_eq.agrees j k, key, state),
        ap (λ x. x.step) (sym state) ∙ address_step t.step here,
      )
  | inr a ↦
      let later : row_of_token token d ≡ some (k, s) = ground (arith, e, a) in
      let rest = row_of_token-get token d k s h.1 later in
      (ground (arith, rest.0, h.0, pair_eq.agrees j k), rest.1)
]

chosen-IsReady :
    (library : Library) (p : Point) (pack : PackDefinition) (s : IntakeState)
    → s.step ≡ Step.address
    → IsReady pack s
    → IsReady pack (chosen_state library p s)
unfolding chosen_state
chosen-IsReady library p pack s step h =
    let phone : has s.field_values "phone" ≡ true = (rw step at h.1) in
    let label = point_label library p.address p.latitude p.longitude in
    (
      h.0,
      (
        ground (arith, phone, has-put s.field_values "address" "phone" label),
        ground (arith, has-put s.field_values "address" "address" label),
      ),
    )

write_choice-IsValid :
    {S : Type 0} (packs : PackStore) (library : Library) (p : Point) (token : String) (w : World S)
    (row : Option Row)
    → row_of_token token w.sessions ≡ row
    → IsValid packs w
    → IsValid packs (write_choice library p row w)
unfolding write_choice chosen_state
write_choice-IsValid packs library p token w none e v = v
write_choice-IsValid packs library p token w (some ((o, a), s)) e v =
    let there = row_of_token-get token w.sessions (o, a) s v.distinct e in
    put-IsValid packs w o a (chosen_state library p s) (v.versioned o a s there.0)
      (λ r q. chosen-IsReady library p r.definition s there.1 (v.ready o a s r there.0 q)) v

pub select_address_by_token-IsValid :
    {S : Type 0} (packs : PackStore) (library : Library) (token : String) (p : Point) (w : World S)
    → IsValid packs w
    → IsValid packs (select_address_by_token library token p w).1
unfolding select_address_by_token
select_address_by_token-IsValid packs library token p w v =
    write_choice-IsValid packs library p token w (row_of_token token w.sessions) refl v

write_choice-dispatch :
    {S : Type 0} (library : Library) (p : Point) (row : Option Row) (w : World S)
    → (write_choice library p row w).dispatch ≡ w.dispatch
unfolding write_choice
write_choice-dispatch library p none w = refl
write_choice-dispatch library p (some (k, s)) w = refl

pub select_address_by_token-dispatch :
    {S : Type 0} (library : Library) (token : String) (p : Point) (w : World S)
    → (select_address_by_token library token p w).1.dispatch ≡ w.dispatch
unfolding select_address_by_token
select_address_by_token-dispatch library token p w =
    write_choice-dispatch library p (row_of_token token w.sessions) w
