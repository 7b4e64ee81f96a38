-- ===== src/Messaging/Intake/Updates.antt =====
-- Sequences of updates of any clients (src/dispatch_core/messaging/intake.py).
use dispatch_core.Shared.{◌<◌, String, Option, some, List, [], ◌∷◌, ◌≡◌}
use dispatch_core.Domain.WorkOrder.{WorkOrder}
use dispatch_core.Application.Exec.{Exec}
use dispatch_core.Application.Service.{OrderRequest}
use dispatch_core.Messaging.Intake.Data.{PackStore, PackRevision, Library, World, ActorIdentity}
use dispatch_core.Messaging.Intake.Changes.{Fresh}
use dispatch_core.Messaging.Intake.Handlers.{
  Callback, Point, handle_text, handle_callback, handle_location,
}
use dispatch_core.Messaging.Intake.MapChoice.{
  select_address_by_token, select_address_by_token-IsValid, select_address_by_token-dispatch,
}
use dispatch_core.Messaging.Intake.Validity.{IsValid, Confirms, FromState}
use dispatch_core.Messaging.Intake.Judgement.{Ordered, nothing}
use dispatch_core.Messaging.Intake.Sound.{handle_text-Answers, handle_location-Answers}
use dispatch_core.Messaging.Intake.Buttons.{handle_callback-Answers}

pub data Update : Type 0 where
  message : ActorIdentity → String → Fresh → Update
  press : ActorIdentity → Callback → Fresh → Update
  place : ActorIdentity → Point → Fresh → Update
  choice : String → Point → Update

-- What an update lets be ordered.
abbrev pub MayOrder : {S : Type 0} → PackStore → Library → Update → World S → OrderRequest → Type 0
MayOrder packs library (press identity c fresh) w a =
    FromState packs identity w (Confirms library identity) a
MayOrder packs library (message identity text fresh) w a = ⊥
MayOrder packs library (place identity p fresh) w a = ⊥
MayOrder packs library (choice token p) w a = ⊥

module _ {S : Type 0} (packs : PackStore) (library : Library) (public_base_url : Option String)
    (create_order_once : OrderRequest → String → Exec S WorkOrder) where
  -- What an update leaves, whatever is replied.
  unfoldable pub handle : Update → World S → World S
  unfolding handle_text handle_callback handle_location select_address_by_token
  handle (message identity text fresh) w =
      (handle_text packs library public_base_url create_order_once identity text fresh w).1
  handle (press identity c fresh) w =
      (handle_callback packs library public_base_url create_order_once identity c fresh w).1
  handle (place identity p fresh) w =
      (handle_location packs library public_base_url create_order_once identity p fresh w).1
  handle (choice token p) w = (select_address_by_token library token p w).1

  unfoldable pub handle_all : List Update → World S → World S
  unfolding handle
  handle_all [] w = w
  handle_all (u ∷ us) w = handle_all us (handle u w)

module _ {S : Type 0} (packs : PackStore) (library : Library) (public_base_url : Option String)
    (create_order_once : OrderRequest → String → Exec S WorkOrder)
    (positive : (o : String) (r : PackRevision)
      → packs.active_revision o ≡ some r
      → 0 < r.version) where
  handle-IsValid :
      (u : Update) (w : World S)
      → IsValid packs w
      → IsValid packs (handle packs library public_base_url create_order_once u w)
  unfolding handle
  handle-IsValid (message identity text fresh) w v =
      (handle_text-Answers packs library public_base_url create_order_once positive identity text
          fresh).valid
        w v
  handle-IsValid (press identity c fresh) w v =
      (handle_callback-Answers packs library public_base_url create_order_once positive identity c
          fresh).valid
        w v
  handle-IsValid (place identity p fresh) w v =
      (handle_location-Answers packs library public_base_url create_order_once positive identity p
          fresh).valid
        w v
  handle-IsValid (choice token p) w v = select_address_by_token-IsValid packs library token p w v

  -- Where the active revisions of packs have positive versions, whatever updates of whatever clients
  -- come in whatever order, choices of points on the map among them, every saved state stays what its
  -- step promises by the pack of its version: after the phone step the phone is there, after the
  -- address step the address too, the selected services are on offer, the required fields before the
  -- field asked for have values, and at the confirmation all required fields have.
  pub handle_all-IsValid :
      (us : List Update) (w : World S)
      → IsValid packs w
      → IsValid packs (handle_all packs library public_base_url create_order_once us w)
  unfolding handle_all
  handle_all-IsValid [] w v = v
  handle_all-IsValid (u ∷ us) w v =
      handle_all-IsValid us (handle packs library public_base_url create_order_once u w)
        (handle-IsValid u w v)

  -- Where the active revisions of packs have positive versions and the saved states are what their
  -- steps promise, an update leaves the store of orders as it was, or it is a press of a button and
  -- leaves the store as one call of `create_order_once` does. The client's saved state is then at the
  -- confirmation, the request is the one that this state makes, and by the revision of the pack that has
  -- the version of the state it is for at least one service, all of them on offer, and its details hold
  -- the phone, the address and every required field.
  pub handle-Ordered :
      (u : Update) (w : World S)
      → IsValid packs w
      → Ordered packs create_order_once
          (MayOrder packs library u w)
          w.dispatch
          (handle packs library public_base_url create_order_once u w).dispatch
  unfolding handle
  handle-Ordered (message identity text fresh) w v =
      (handle_text-Answers packs library public_base_url create_order_once positive identity text
          fresh).ordered
        w v
  handle-Ordered (press identity c fresh) w v =
      (handle_callback-Answers packs library public_base_url create_order_once positive identity c
          fresh).ordered
        w v
  handle-Ordered (place identity p fresh) w v =
      (handle_location-Answers packs library public_base_url create_order_once positive identity p
          fresh).ordered
        w v
  handle-Ordered (choice token p) w v = nothing (select_address_by_token-dispatch library token p w)
