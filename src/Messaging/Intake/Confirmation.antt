-- ===== src/Messaging/Intake/Confirmation.antt =====
-- The press of the confirm button (src/dispatch_core/messaging/intake.py), and the same press once more
-- where the answer of the service was lost.
use dispatch_core.Shared.{
  ◌<◌, true, false, String, is_empty, ltb, lt→ltb, Option, some, List, [], ◌∷◌, ◌≡◌, refl, pair_eq,
  string_eq, ◌∙◌, ap,
}
use dispatch_core.Shared.Dict.{get}
use dispatch_core.Domain.Errors.{Result, ok, err}
use dispatch_core.Domain.WorkOrder.{WorkOrder}
use dispatch_core.Application.Exec.{Exec, pure, ◌>>=◌, ◌>>◌}
use dispatch_core.Application.Service.{OrderRequest}
use dispatch_core.Messaging.Replies.{Reply}
use dispatch_core.Messaging.Intake.Data.{
  IntakeState, Step, PackStore, Library, PackRevision, World, ActorIdentity, row_of, delete, saved,
  clear,
}
use dispatch_core.Messaging.Intake.Prompts.{plain, confirm_action}
use dispatch_core.Messaging.Intake.Changes.{Fresh, request_of, submitted_text}
use dispatch_core.Messaging.Intake.Flow.{confirm, pack_for_state, submission_id_of, submit}
use dispatch_core.Messaging.Intake.Handlers.{
  Callback, handle_callback, resume, resume_from, callback_step, callback_cases, first_case,
}

-- The state of a client who may confirm.
pub record Confirmable {S : Type 0} (packs : PackStore) (identity : ActorIdentity) (w : World S)
    (r : PackRevision) (s : IntakeState) (id : String) : Type 0 where
  pub there : get w.sessions (row_of identity) ≡ some s
  pub versioned : 0 < s.pack_version
  pub revision : packs.revision identity.organization_id s.pack_version ≡ some r
  pub step : s.step ≡ Step.confirm
  pub first : String
  pub others : List String
  pub selected : s.selected ≡ first ∷ others
  pub submission : s.submission_id ≡ some id
  pub some_id : is_empty id ≡ false

abbrev pub confirm_press : Callback
confirm_press = record { action = confirm_action; payload = [] }

-- What the press makes of what the service answers.
abbrev pub settled :
    {S : Type 0}
    → ActorIdentity
    → PackRevision
    → World S
    → Result WorkOrder × S
    → Result Reply × World S
settled identity r w (ok o, t) = (
  ok (plain (submitted_text r.definition o)),
  record { sessions = delete w.sessions (row_of identity); dispatch = t },
)
settled identity r w (err e, t) = (err e, record w { dispatch = t })

-- How a chain goes on from the end of its first part.
abbrev goes_on : {W A B : Type 0} → (A → Exec W B) → Result A × W → Result B × W
goes_on f (ok a, w) = f a w
goes_on f (err e, w) = (err e, w)

bind_const :
    {W A B : Type 0} (f : A → Exec W B) (p : Result A × W) (w : W)
    → ((λ _. p) >>= f) w ≡ goes_on f p
bind_const f (ok a, w') w = refl
bind_const f (err e, w') w = refl

bind_at :
    {W A B : Type 0} (m : Exec W A) (f : A → Exec W B) (w : W) (p : Result A × W)
    → m w ≡ p
    → (m >>= f) w ≡ goes_on f p
bind_at m f w p e = bind_const f (m w) w ∙ ap (goes_on f) e

module _ {S : Type 0} (packs : PackStore) (library : Library) (public_base_url : Option String)
    (create_order_once : OrderRequest → String → Exec S WorkOrder) where
  abbrev conclude : ActorIdentity → PackRevision → WorkOrder → Exec (World S) Reply
  conclude identity r order = clear identity >> pure (plain (submitted_text r.definition order))

  abbrev lifted : World S → Result WorkOrder × S → Result WorkOrder × World S
  lifted w (x, t) = (x, record w { dispatch = t })

  concluded :
      (identity : ActorIdentity) (r : PackRevision) (w : World S) (p : Result WorkOrder × S)
      → goes_on (conclude identity r) (lifted w p) ≡ settled identity r w p
  unfolding clear
  concluded identity r w (ok o, t) = refl
  concluded identity r w (err e, t) = refl

  submitted :
      (identity : ActorIdentity) (w : World S) (r : PackRevision) (a : OrderRequest) (id : String)
      → (submit packs library public_base_url create_order_once a id >>= conclude identity r) w
        ≡ settled identity r w (create_order_once a id w.dispatch)
  unfolding submit
  submitted identity w r a id =
      let p = create_order_once a id w.dispatch in
      bind_at (submit packs library public_base_url create_order_once a id) (conclude identity r) w
        (lifted w p) refl
      ∙ concluded identity r w p

  kept_id :
      (identity : ActorIdentity) (fresh : Fresh) (w : World S) (s : IntakeState) (id : String)
      → s.submission_id ≡ some id
      → is_empty id ≡ false
      → submission_id_of packs library public_base_url create_order_once identity s fresh w
        ≡ (ok (id, s), w)
  unfolding submission_id_of
  kept_id identity fresh w s id e f = simp (submission_id_of, e, f) refl

  confirm-settled :
      (identity : ActorIdentity) (fresh : Fresh) (w : World S) (r : PackRevision) (s : IntakeState)
      (id : String)
      → Confirmable packs identity w r s id
      → confirm packs library public_base_url create_order_once identity r.definition s fresh w
        ≡ settled identity r w
            (create_order_once (request_of library identity r.definition s) id w.dispatch)
  unfolding confirm
  confirm-settled identity fresh w r s id c =
      let next : String × IntakeState → Exec (World S) Reply = λ p.
        submit packs library public_base_url create_order_once
          (request_of library identity r.definition s) p.0
        >>= conclude identity r in
      let opened : confirm packs library public_base_url create_order_once identity r.definition s
            fresh w
          ≡ (submission_id_of packs library public_base_url create_order_once identity s fresh
                >>= next)
              w =
        simp (confirm, c.selected) refl in
      opened
      ∙ bind_at (submission_id_of packs library public_base_url create_order_once identity s fresh)
          next w (ok (id, s), w) (kept_id identity fresh w s id c.submission c.some_id)
      ∙ submitted identity w r (request_of library identity r.definition s) id

  resume-confirm :
      (identity : ActorIdentity) (fresh : Fresh) (w : World S) (r : PackRevision) (s : IntakeState)
      (id : String)
      → Confirmable packs identity w r s id
      → handle_callback packs library public_base_url create_order_once identity confirm_press fresh
          w
        ≡ confirm packs library public_base_url create_order_once identity r.definition s fresh w
  unfolding handle_callback resume resume_from saved pack_for_state callback_step callback_cases
      first_case
  resume-confirm identity fresh w r s id c =
      let t : ltb 0 s.pack_version ≡ true = lt→ltb 0 s.pack_version c.versioned in
      simp
        (
          handle_callback, resume, c.there, resume_from, pack_for_state, t, c.revision,
          callback_step, c.step,
        )
        refl

  -- The press of the confirm button by a client at the confirmation, of a pack that is there, with
  -- services selected and an identifier of the submission, comes to one call of the service with that
  -- identifier. If the service answers with an order, the client is told so and the state is gone; if it
  -- raises, the error goes on and every state is kept, so the press can be repeated.
  pub handle_callback-settled :
      (identity : ActorIdentity) (fresh : Fresh) (w : World S) (r : PackRevision) (s : IntakeState)
      (id : String)
      → Confirmable packs identity w r s id
      → handle_callback packs library public_base_url create_order_once identity confirm_press fresh
          w
        ≡ settled identity r w
            (create_order_once (request_of library identity r.definition s) id w.dispatch)
  handle_callback-settled identity fresh w r s id c =
      resume-confirm identity fresh w r s id c ∙ confirm-settled identity fresh w r s id c
