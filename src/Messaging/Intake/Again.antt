-- ===== src/Messaging/Intake/Again.antt =====
-- The press of the confirm button (src/dispatch_core/messaging/intake.py) once more, over the
-- asynchronous service in memory, where the state was not cleared after the service answered.
use dispatch_core.Shared.{true, String, Option, ◌≡◌, ◌∙◌, ap, pair_eq}
use dispatch_core.Domain.Errors.{ok}
use dispatch_core.Domain.Events.{Ambient}
use dispatch_core.Domain.Events.Equality.{same_details}
use dispatch_core.Domain.WorkOrder.{WorkOrder}
use dispatch_core.Application.AsyncService
use dispatch_core.Application.Exec.{Exec}
use dispatch_core.Application.Service.{OrderRequest}
use dispatch_core.Application.Task.{alone}
use dispatch_core.Infrastructure.AsyncMemory.{AsyncMemoryStore, async_memory, numbered}
use dispatch_core.Interleaving.Retry.{create_order_once-repeat}
use dispatch_core.Messaging.Intake.Data.{
  IntakeState, PackStore, Library, PackRevision, World, ActorIdentity, row_of, delete,
}
use dispatch_core.Messaging.Intake.Prompts.{plain}
use dispatch_core.Messaging.Intake.Changes.{Fresh, request_of, submitted_text}
use dispatch_core.Messaging.Intake.Handlers.{handle_callback}
use dispatch_core.Messaging.Intake.Confirmation.{
  Confirmable, confirm_press, settled, handle_callback-settled,
}

-- `create_order_once` of the asynchronous service, uninterrupted.
abbrev pub in_memory : Ambient → Ambient → OrderRequest → String → Exec AsyncMemoryStore WorkOrder
in_memory env env' a order_id s =
    alone (AsyncService.create_order_once async_memory a order_id env env') s

module _ (packs : PackStore) (library : Library) (public_base_url : Option String)
    (identity : ActorIdentity) (fresh : Fresh) (env env' again_env again_env' : Ambient) where
  still-Confirmable :
      (w : World AsyncMemoryStore) (t : AsyncMemoryStore) (r : PackRevision) (s : IntakeState)
      (id : String)
      → Confirmable packs identity w r s id
      → Confirmable packs identity (record w { dispatch = t }) r s id
  still-Confirmable w t r s id c = record {
    there = c.there;
    versioned = c.versioned;
    revision = c.revision;
    step = c.step;
    first = c.first;
    others = c.others;
    selected = c.selected;
    submission = c.submission;
    some_id = c.some_id;
  }

  -- Where the service, alone on the store in memory, answered a press of the confirm button with an
  -- order, but the state was not cleared, the press once more tells the client of the same order, clears
  -- the state, and changes in the store nothing but the counter of the organization. The client is at
  -- the confirmation as in the first press, and the details of the request equal themselves.
  pub handle_callback-again :
      (w : World AsyncMemoryStore) (r : PackRevision) (s : IntakeState) (id : String)
      {o : WorkOrder} {t : AsyncMemoryStore}
      → Confirmable packs identity w r s id
      → same_details
          (request_of library identity r.definition s).details
          (request_of library identity r.definition s).details
        ≡ true
      → in_memory env env' (request_of library identity r.definition s) id w.dispatch ≡ (ok o, t)
      → handle_callback packs library public_base_url
          (in_memory again_env again_env')
          identity
          confirm_press
          fresh
          (record w { dispatch = t })
        ≡ (
          ok (plain (submitted_text r.definition o)),
          record {
            sessions = delete w.sessions (row_of identity);
            dispatch = numbered identity.organization_id t;
          },
        )
  unfolding request_of
  handle_callback-again w r s id {o} {t} c same e =
      let a = request_of library identity r.definition s in
      handle_callback-settled packs library public_base_url (in_memory again_env again_env')
        identity fresh (record w { dispatch = t }) r s id (still-Confirmable w t r s id c)
      ∙ ap (settled identity r (record w { dispatch = t }))
          (create_order_once-repeat a id env env' again_env again_env' w.dispatch same e)
