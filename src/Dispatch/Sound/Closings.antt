-- ===== src/Dispatch/Sound/Closings.antt =====
-- Cancelling and completing orders keeps the store sound.
use dispatch_core.Shared.{
  ◌≡◌, ◌≢◌, refl, sym, ◌∙◌, false, String, none, some, List, [], ◌∷◌, ◌++◌, append-nil, arith, ap,
  length,
}
use dispatch_core.Domain.Errors.{Result, ok}
use dispatch_core.Domain.Events.{Ambient}
use dispatch_core.Domain.WorkOrder.{WorkOrder, WorkOrderStatus, Command, apply}
use dispatch_core.Domain.Tracking
use dispatch_core.Domain.Tracking.{TrackingSession, Fresh}
use dispatch_core.Domain.Tracking.Frame.{Continues}
use dispatch_core.Domain.Tracking.Invariant.{IsValid}
use dispatch_core.Infrastructure.Memory.{MemoryStore, at_most_one, matches}
use dispatch_core.Dispatch.Closing.{Closes, none_open, one_closed}
use dispatch_core.Dispatch.Orders.{move-IsOrderly, apply_identity}
use dispatch_core.Dispatch.Sound.Orders.{IsSound}
use dispatch_core.Dispatch.Sessions.{matches_found, IsTracked}
use dispatch_core.Dispatch.Links.{stop-IsTracked, close-IsTracked}

none_of_at_most_one : (l : List TrackingSession) → at_most_one l ≡ ok none → length l ≡ 0
none_of_at_most_one [] h = refl
none_of_at_most_one (t ∷ []) h = absurd (ground arith)
none_of_at_most_one (t ∷ u ∷ l) h = absurd (ground arith)

one_of_at_most_one :
    (l : List TrackingSession) (t : TrackingSession) → at_most_one l ≡ ok (some t) → l ≡ t ∷ []
one_of_at_most_one [] t h = absurd (ground arith)
one_of_at_most_one (u ∷ []) t h = ground arith
one_of_at_most_one (u ∷ v ∷ l) t h = absurd (ground arith)

matched_pulled :
    (org id : String) (s : MemoryStore) (t : TrackingSession)
    → IsTracked s
    → matches org id s.tracking_sessions ≡ t ∷ []
    → t.events ≡ []
matched_pulled org id s t tracked one =
    let (k, there, match) =
      matches_found org id s.tracking_sessions {t = t} {ts = []} tracked.distinct one in
    (tracked.kept k t there).pulled

module _ (org id : String) (c : Command) (env : Ambient)
    (close : TrackingSession → Result TrackingSession)
    (stops : (o o' : WorkOrder) → apply c none env o ≡ ok o' → o'.status ≢ WorkOrderStatus.en_route)
    (closes : (t t' : TrackingSession)
      → close t ≡ ok t'
      → ((Tracking.is_active t'.status ≡ false) × Continues t t') × (IsValid t → IsValid t')) where
  pub close-IsSound :
      (s : MemoryStore) {order : WorkOrder} {s' : MemoryStore}
      → Closes org id (apply c none env) close s order s'
      → IsSound s
      → IsSound s'
  close-IsSound s {order} {s'} made sound =
      let (same_id, same_org) = apply_identity c env made.found made.changed made.is_changed in
      let kept = sound.orderly.kept id made.found made.is_stored in
      let off = stops made.found made.changed made.is_changed in
      let active : at_most_one (matches made.found.organization_id id s.tracking_sessions)
          ≡ ok made.session =
        rw made.is_owned made.is_active in
      elim made.closing [
        | none_open n sessions sent ↦ record {
          orderly =
              move-IsOrderly c env id made.found made.changed [] s s' sound.orderly made.is_stored
                made.is_changed tt made.orders made.capacity
                (sent ∙ ap (λ l. s.outbox_events ++ l) (sym (append-nil made.changed.events)));
          tracked =
              stop-IsTracked id made.found made.changed s sound.tracked made.is_stored
                (same_id ∙ kept.key) same_org off (none_of_at_most_one _ (active ∙ ap ok n)) s'
                made.orders sessions;
        }
        | one_closed t t' q e sessions sent ↦
            let (shut, valid) = closes t t' e in
            let one =
              one_of_at_most_one (matches made.found.organization_id id s.tracking_sessions) t
                (active ∙ ap ok q) in
            record {
              orderly =
                  move-IsOrderly c env id made.found made.changed t'.events s s' sound.orderly
                    made.is_stored made.is_changed
                    (shut.1.events
                      (matched_pulled made.found.organization_id id s t sound.tracked one))
                    made.orders made.capacity sent;
              tracked =
                  close-IsTracked id made.found made.changed s sound.tracked made.is_stored
                    (same_id ∙ kept.key) same_org t t' off one shut valid s' made.orders sessions;
            }
      ]
