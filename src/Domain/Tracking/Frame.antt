-- ===== src/Domain/Tracking/Frame.antt =====
-- What the methods of a session leave alone, and what kind of events they record.
use dispatch_core.Shared.{
  ◌≡◌, ◌<◌, ◌⊎◌, inl, inr, Bool-cases, true, false, String, Option, [], All, arith,
}
use dispatch_core.Domain.Errors.{ok}
use dispatch_core.Domain.Events.{DomainEvent, Ambient, Instant}
use dispatch_core.Domain.Tracking.Data.{TrackingPoint, TrackingSession, is_active}
use dispatch_core.Domain.Tracking.Methods.{
  Start, Fresh, start, add_point, complete, cancel, is_duplicate,
}

abbrev pub IsSessionEvent : DomainEvent → Type 0
IsSessionEvent e = e.aggregate_type ≡ "tracking_session"

-- The session stays the same session, and records events of its own kind.
pub record Continues (t t' : TrackingSession) : Type 0 where
  pub id : t'.id ≡ t.id
  pub organization_id : t'.organization_id ≡ t.organization_id
  pub work_order_id : t'.work_order_id ≡ t.work_order_id
  pub executor_id : t'.executor_id ≡ t.executor_id
  pub events : t.events ≡ [] → All IsSessionEvent t'.events

module _ (env : Ambient) (t : TrackingSession) {t' : TrackingSession} where
  pub add_point-Continues :
      (p : TrackingPoint) → add_point p env t ≡ ok t' → (t'.status ≡ t.status) × Continues t t'
  unfolding add_point
  add_point-Continues p h = (
    ground arith,
    record {
      id = ground arith;
      organization_id = ground arith;
      work_order_id = ground arith;
      executor_id = ground arith;
      events = λ e. ground arith;
    },
  )

  pub complete-Continues :
      (now : Option Instant)
      → complete now env t ≡ ok t'
      → (is_active t'.status ≡ false) × Continues t t'
  unfolding complete
  complete-Continues now h = (
    ground arith,
    record {
      id = ground arith;
      organization_id = ground arith;
      work_order_id = ground arith;
      executor_id = ground arith;
      events = λ e. ground arith;
    },
  )

  pub cancel-Continues :
      (reason : String) (now : Option Instant)
      → cancel reason now env t ≡ ok t'
      → (is_active t'.status ≡ false) × Continues t t'
  unfolding cancel
  cancel-Continues reason now h = (
    ground arith,
    record {
      id = ground arith;
      organization_id = ground arith;
      work_order_id = ground arith;
      executor_id = ground arith;
      events = λ e. ground arith;
    },
  )

-- What a session that was started is.
pub start_lem :
    (a : Start) (now : Option Instant) (fresh : Fresh) (env : Ambient) {t : TrackingSession}
    → start a now fresh env ≡ ok t
    → (t.id ≡ a.session_id)
      × (t.organization_id ≡ a.organization_id)
      × (t.work_order_id ≡ a.work_order_id)
      × (t.executor_id ≡ a.executor_id)
      × (is_active t.status ≡ true)
      × All IsSessionEvent t.events
unfolding start
start_lem a now fresh env h = ground arith

-- Each of the methods leaves the session as it is, or raises its version.
module _ (env : Ambient) (t : TrackingSession) {t' : TrackingSession} where
  pub add_point_moves :
      (p : TrackingPoint) → add_point p env t ≡ ok t' → (t' ≡ t) ⊎ (t.version < t'.version)
  unfolding add_point
  add_point_moves p h = elim (Bool-cases (is_duplicate p.source_event_id t.points)) [
    | inl d ↦ inl (ground arith)
    | inr n ↦ inr (ground arith)
  ]

  pub complete_moves :
      (now : Option Instant) → complete now env t ≡ ok t' → (t' ≡ t) ⊎ (t.version < t'.version)
  unfolding complete
  complete_moves now h = inr (ground arith)

  pub cancel_moves :
      (reason : String) (now : Option Instant)
      → cancel reason now env t ≡ ok t'
      → (t' ≡ t) ⊎ (t.version < t'.version)
  unfolding cancel
  cancel_moves reason now h = inr (ground arith)
