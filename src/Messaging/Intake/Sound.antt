-- ===== src/Messaging/Intake/Sound.antt =====
-- What each update does to the saved states and the orders (src/dispatch_core/messaging/intake.py).
use dispatch_core.Shared.{
  ◌<◌, true, ◌&&◌, ltb, String, string_eq, pair_eq, is_empty, Option, none, some, [], ◌≡◌, ◌≢◌, ◌⊎◌,
  lt→ltb, refl, arith, Bool-cases, Option-cases, inl, inr,
}
use dispatch_core.Shared.Dict.{get}
use dispatch_core.Domain.Errors.{Result}
use dispatch_core.Domain.Floats.{is_within}
use dispatch_core.Domain.WorkOrder.{WorkOrder}
use dispatch_core.Packs.Data.{PackDefinition}
use dispatch_core.Application.Exec.{Exec, pure, ◌>>◌}
use dispatch_core.Application.Service.{OrderRequest}
use dispatch_core.Messaging.Replies.{Reply}
use dispatch_core.Messaging.Intake.Data.{
  IntakeState, Step, PackStore, Library, PackRevision, World, ActorIdentity, row_of, save, saved,
}
use dispatch_core.Messaging.Intake.Prompts.{plain, not_configured}
use dispatch_core.Messaging.Intake.Changes.{Fresh, request_of, submitted_text}
use dispatch_core.Messaging.Intake.Flow.{start, pack_for_state, submission_id_of, confirm}
use dispatch_core.Messaging.Intake.Handlers.{
  Point, resume, resume_from, location_step, text_step, handle_text, handle_location,
}
use dispatch_core.Messaging.Intake.Validity.{IsValid, Confirms, FromState, request_of-IsComplete}
use dispatch_core.Messaging.Intake.Judgement.{
  Keeps, Sound, Answers, Ordered, nothing, Ordered-weaken, Keeps-Sound, Keeps-Answers, pure-Keeps,
  lift-Keeps, bind-Keeps, bind-Sound, clear-Keeps, submit_then,
}
use dispatch_core.Messaging.Intake.Ready.{
  Held, List-cases, save_then, start-Keeps, fill_phone-Keeps, Held-services, fill_address-Keeps,
}
use dispatch_core.Messaging.Intake.Fields.{fill_field-Keeps}

module _ {S : Type 0} (packs : PackStore) (library : Library) (public_base_url : Option String)
    (create_order_once : OrderRequest → String → Exec S WorkOrder)
    (positive : (o : String) (r : PackRevision)
      → packs.active_revision o ≡ some r
      → 0 < r.version) where
  abbrev IsHeld : ActorIdentity → PackRevision → IntakeState → Type 0
  IsHeld identity r s = Held packs library public_base_url create_order_once positive identity r s

  abbrev IsQuiet : {A : Type 0} → Exec (World S) A → Type 0
  IsQuiet m = Keeps packs create_order_once m

  -- What a state lets be ordered, and nothing.
  abbrev Allowance : Type 1
  Allowance = PackRevision → IntakeState → OrderRequest → Type 0

  abbrev none_allowed : Allowance
  none_allowed r s a = ⊥

  submission_id_of-Keeps :
      (identity : ActorIdentity) (r : PackRevision) (s : IntakeState) (fresh : Fresh)
      → IsHeld identity r s
      → IsQuiet (submission_id_of packs library public_base_url create_order_once identity s fresh)
  unfolding submission_id_of
  submission_id_of-Keeps identity r s fresh h =
      let state : IntakeState = record s { submission_id = some fresh.uuid } in
      let renewed : IsQuiet (save identity state >> pure (fresh.uuid, state)) =
        save_then packs library public_base_url create_order_once positive identity r state _
          (record { versioned = h.versioned; revision = h.revision; ready = h.ready })
          (pure-Keeps packs create_order_once _) in
      elim (Option-cases s.submission_id) [
        | inl e ↦ rw (submission_id_of, e) renewed
        | inr (given, e) ↦ elim (Bool-cases (is_empty given)) [
          | inl q ↦ rw (submission_id_of, e, q) renewed
          | inr q ↦ rw (submission_id_of, e, q) (pure-Keeps packs create_order_once _)
        ]
      ]

  -- Where the request may be made if a service is selected.
  confirming-Sound :
      (identity : ActorIdentity) (r : PackRevision) (s : IntakeState) (fresh : Fresh)
      (May : OrderRequest → Type 0)
      → (s.selected ≢ [] → May (request_of library identity r.definition s))
      → IsHeld identity r s
      → Sound packs create_order_once May
          (confirm packs library public_base_url create_order_once identity r.definition s fresh)
  unfolding confirm
  confirming-Sound identity r s fresh May may h =
      elim (List-cases packs library public_base_url create_order_once positive s.selected) [
        | inl e ↦
            rw (confirm, e)
              (Keeps-Sound packs create_order_once (
                start-Keeps packs library public_base_url create_order_once positive identity
                  fresh))
        | inr (k, ks, e) ↦
            let chosen : s.selected ≢ [] = ground (arith, e) in
            rw (confirm, e)
              (bind-Sound packs create_order_once _ _ (submission_id_of-Keeps identity r s fresh h)
                λ p.
                  submit_then packs create_order_once library public_base_url
                    (request_of library identity r.definition s) p.0 _ (may chosen)
                    λ o.
                      bind-Keeps packs create_order_once _ _
                        (clear-Keeps packs create_order_once identity)
                        (λ _.
                          pure-Keeps packs create_order_once
                            (plain (submitted_text r.definition o))))
      ]

  pub confirm-Sound :
      (identity : ActorIdentity) (r : PackRevision) (s : IntakeState) (fresh : Fresh)
      → s.step ≡ Step.confirm
      → IsHeld identity r s
      → Sound packs create_order_once
          (Confirms library identity r s)
          (confirm packs library public_base_url create_order_once identity r.definition s fresh)
  confirm-Sound identity r s fresh step h =
      confirming-Sound identity r s fresh (Confirms library identity r s)
        (λ chosen. record {
          step = step;
          request = refl;
          complete = request_of-IsComplete library identity r.definition s chosen step h.ready;
        })
        h

  -- A handler starts the flow anew, finds no pack, or goes on with a state and the pack of its version.
  resume_cases :
      (identity : ActorIdentity) (fresh : Fresh)
      (body : PackDefinition → IntakeState → Exec (World S) Reply) (w : World S)
      (o : Option IntakeState)
      → get w.sessions (row_of identity) ≡ o
      → IsValid packs w
      → (resume_from packs library public_base_url create_order_once identity fresh body o w
          ≡ start packs library public_base_url create_order_once identity fresh w)
        ⊎ ((resume_from packs library public_base_url create_order_once identity fresh body o w
              ≡ pure not_configured w)
            ⊎ ((r : PackRevision) × (s : IntakeState) × (get w.sessions (row_of identity) ≡ some s)
                × IsHeld identity r s
                × (resume_from packs library public_base_url create_order_once identity fresh body o
                      w
                    ≡ body r.definition s w)))
  unfolding resume_from
  resume_cases identity fresh body w none e v = inl refl
  resume_cases identity fresh body w (some s) e v =
      let n = v.versioned identity.organization_id identity.actor_id s e in
      let t : ltb 0 s.pack_version ≡ true = lt→ltb 0 s.pack_version n in
      elim (Option-cases (packs.revision identity.organization_id s.pack_version)) [
        | inl q ↦ inr (inl (rw (resume_from, pack_for_state, t, q) refl))
        | inr (r, q) ↦ inr (
            inr (
              r,
              s,
              e,
              record {
                versioned = n;
                revision = q;
                ready = v.ready identity.organization_id identity.actor_id s r e q;
              },
              rw (resume_from, pack_for_state, t, q) refl,
            ))
      ]

  -- The two judgements at one world.
  abbrev EndsWell : {A : Type 0} → (OrderRequest → Type 0) → World S → Result A × World S → Type 0
  EndsWell May w p = IsValid packs p.1 × Ordered packs create_order_once May w.dispatch p.1.dispatch

  pub resume-Answers :
      (identity : ActorIdentity) (fresh : Fresh) (May : Allowance)
      (body : PackDefinition → IntakeState → Exec (World S) Reply)
      → ((r : PackRevision) (s : IntakeState)
          → IsHeld identity r s
          → Sound packs create_order_once (May r s) (body r.definition s))
      → Answers packs create_order_once
          (λ w. FromState packs identity w May)
          (resume packs library public_base_url create_order_once identity fresh body)
  unfolding resume saved
  resume-Answers identity fresh May body h =
      let both : (w : World S)
          → IsValid packs w
          → EndsWell (FromState packs identity w May) w
              (resume packs library public_base_url create_order_once identity fresh body w) =
        λ w v. elim (resume_cases identity fresh body w (get w.sessions (row_of identity)) refl v) [
          | inl e ↦
              let k =
                start-Keeps packs library public_base_url create_order_once positive identity
                  fresh in
              rw (resume, e) (k.valid w v, nothing (k.quiet w))
          | inr (inl e) ↦ rw (resume, e) (v, nothing refl)
          | inr (inr (r, s, there, held, e)) ↦
              rw (resume, e)
                (
                  (h r s held).valid w v,
                  Ordered-weaken packs create_order_once
                      (λ a m. record {
                        state = s;
                        revision = r;
                        there = there;
                        versioned = held.revision;
                        allowed = m;
                      })
                      ((h r s held).ordered w v),
                )
        ] in
      record { valid = λ w v. (both w v).0; ordered = λ w v. (both w v).1 }

  -- A handler that goes on quietly is quiet.
  resume-quiet :
      (identity : ActorIdentity) (fresh : Fresh)
      (body : PackDefinition → IntakeState → Exec (World S) Reply)
      → ((r : PackRevision) (s : IntakeState) → IsHeld identity r s → IsQuiet (body r.definition s))
      → Answers packs create_order_once
          (λ w a. ⊥)
          (resume packs library public_base_url create_order_once identity fresh body)
  resume-quiet identity fresh body h =
      let k =
        resume-Answers identity fresh none_allowed body
          (λ r s held. Keeps-Sound packs create_order_once (h r s held)) in
      record {
        valid = k.valid;
        ordered = λ w v. Ordered-weaken packs create_order_once (λ a m. m.allowed) (k.ordered w v);
      }

  text_step-Keeps :
      (identity : ActorIdentity) (text : String) (fresh : Fresh) (r : PackRevision)
      (s : IntakeState) (step : Step)
      → s.step ≡ step
      → IsHeld identity r s
      → IsQuiet (
          text_step packs library public_base_url create_order_once identity text fresh step
            r.definition s)
  text_step-Keeps identity text fresh r s Step.phone e h =
      fill_phone-Keeps packs library public_base_url create_order_once positive identity r s text
        fresh h
  text_step-Keeps identity text fresh r s Step.address e h =
      fill_address-Keeps packs library public_base_url create_order_once positive identity r s text
        e h
  text_step-Keeps identity text fresh r s Step.services e h = lift-Keeps packs create_order_once _
  text_step-Keeps identity text fresh r s Step.fields e h =
      fill_field-Keeps packs library public_base_url create_order_once positive identity r s text e
        h
  text_step-Keeps identity text fresh r s Step.confirm e h = pure-Keeps packs create_order_once _

  pub handle_text-Answers :
      (identity : ActorIdentity) (text : String) (fresh : Fresh)
      → Answers packs create_order_once
          (λ w a. ⊥)
          (handle_text packs library public_base_url create_order_once identity text fresh)
  unfolding handle_text
  handle_text-Answers identity text fresh =
      resume-quiet identity fresh _ λ r s h. text_step-Keeps identity text fresh r s s.step refl h

  location_step-Keeps :
      (identity : ActorIdentity) (p : Point) (r : PackRevision) (s : IntakeState) (step : Step)
      → s.step ≡ step
      → IsHeld identity r s
      → IsQuiet (
          location_step packs library public_base_url create_order_once identity p step r.definition
            s)
  location_step-Keeps identity p r s Step.address e h =
      save_then packs library public_base_url create_order_once positive identity r _ _
        (Held-services packs library public_base_url create_order_once positive identity r s _ _ e
          h)
        (lift-Keeps packs create_order_once _)
  location_step-Keeps identity p r s Step.phone e h = pure-Keeps packs create_order_once _
  location_step-Keeps identity p r s Step.services e h = pure-Keeps packs create_order_once _
  location_step-Keeps identity p r s Step.fields e h = pure-Keeps packs create_order_once _
  location_step-Keeps identity p r s Step.confirm e h = pure-Keeps packs create_order_once _

  pub handle_location-Answers :
      (identity : ActorIdentity) (p : Point) (fresh : Fresh)
      → Answers packs create_order_once
          (λ w a. ⊥)
          (handle_location packs library public_base_url create_order_once identity p fresh)
  unfolding handle_location
  handle_location-Answers identity p fresh =
      elim (Bool-cases (is_within 90 p.latitude && is_within 180 p.longitude)) [
        | inr e ↦
            rw (handle_location, e)
              (Keeps-Answers packs create_order_once (pure-Keeps packs create_order_once _))
        | inl e ↦
            rw (handle_location, e)
              (resume-quiet identity fresh _
                λ r s h. location_step-Keeps identity p r s s.step refl h)
      ]
