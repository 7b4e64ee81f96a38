-- ===== src/Interleaving/Locations.antt =====
-- Recording a location is steady.
use dispatch_core.Shared.{
  ◌≡◌, inl, inr, Bool-cases, String, ◌==◌, if◌then◌else◌, pair_eq, string_eq, Option, none, some,
  [], ◌∷◌, Option-cases, any,
}
use dispatch_core.Shared.Dict.{get, put, values}
use dispatch_core.Domain.Errors.{ok, Result-cases}
use dispatch_core.Domain.Events.{Ambient, Instant}
use dispatch_core.Domain.Tracking
use dispatch_core.Domain.Tracking.{TrackingSession, TrackingPoint, source_value}
use dispatch_core.Application.AsyncService
use dispatch_core.Application.AsyncService.{point_of, add_location, keep_session, is_repeated}
use dispatch_core.Application.Service.{Location}
use dispatch_core.Application.Task.{continue, finished, ◌>>=◌}
use dispatch_core.Infrastructure.AsyncMemory.{
  AsyncMemoryStore, async_memory, get_session, save_session, has_source_event, add_events, commit,
  holds_event, begin,
}
use dispatch_core.Interleaving.Growth.{IsFiled, Follows, Follows-trans, Follows-IsFiled}
use dispatch_core.Interleaving.Steady.{Steady}
use dispatch_core.Interleaving.Fitting.{
  stays, commits, staged_session, session-Fits, add_point-Moves,
}

module _ (key : String × String) (a : Location) (now : Instant) (env : Ambient) where
  -- Adding to a session that was read at `t`.
  add_location-Steady :
      (t u : AsyncMemoryStore) (c : TrackingSession)
      → IsFiled t
      → Follows t u
      → get t.tracking_sessions key ≡ some c
      → Steady (continue (add_location async_memory a now env c begin) (λ a u. finished (ok a))) u
  unfolding save_session add_events commit put
  add_location-Steady t u c filed g stored =
      elim (Result-cases (Tracking.check_point (point_of a now (Tracking.latest_point c)))) [
        | inr (x, e) ↦ rw e tt
        | inl (p, e) ↦ elim (Result-cases (Tracking.add_point p env c)) [
          | inr (x, f) ↦ rw (e, f) tt
          | inl (c', f) ↦
              rw (e, f)
                (λ v h.
                  commits [] (staged_session c c' ∷ []) c'.events (record c' { events = [] }) v
                    (Follows-IsFiled u v h) (tt {0})
                    (session-Fits t v key c c' filed (Follows-trans t u v g h) stored
                      (add_point-Moves p env c c' f)))
        ]
      ]

  -- The same, after the look for the source event.
  looked_up-Steady :
      (id : Option String) (source : String) (s t : AsyncMemoryStore) (c : TrackingSession)
      → Follows s t
      → get t.tracking_sessions key ≡ some c
      → Steady
          (continue
            ((do
              repeated ← is_repeated async_memory key.0 source id
              if repeated
                  then keep_session async_memory c
                  else add_location async_memory a now env c)
              begin)
            (λ a u. finished (ok a)))
          t
  unfolding has_source_event commit
  looked_up-Steady none source s t c g stored =
      add_location-Steady t t c (Follows-IsFiled s t g) (stays s t g) stored
  looked_up-Steady (some id) source s t c g stored = λ u h. (
    stays t u h,
    elim (Bool-cases (any (holds_event key.0 source id) (values u.tracking_sessions))) [
      | inl r ↦ rw r (λ v l. commits [] [] [] c v (Follows-IsFiled u v l) (tt {0}) (tt {0}))
      | inr r ↦ rw r (add_location-Steady t u c (Follows-IsFiled s t g) h stored)
    ],
  )

pub record_location-Steady :
    (organization_id executor_id session_id : String) (a : Location) (now : Instant) (env : Ambient)
    (s : AsyncMemoryStore)
    → Steady
        (AsyncService.record_location async_memory organization_id executor_id session_id a now env)
        s
unfolding AsyncService.record_location get_session
record_location-Steady organization_id executor_id session_id a now env s t g =
    elim (Option-cases (get t.tracking_sessions (organization_id, session_id))) [
      | inl e ↦ rw e (stays s t g, tt)
      | inr (c, e) ↦ elim (Bool-cases (c.executor_id == executor_id)) [
        | inr n ↦ rw (e, n) (stays s t g, tt)
        | inl y ↦
            rw (e, y)
              (
                stays s t g,
                looked_up-Steady (organization_id, session_id) a now env a.source_event_id
                    (source_value a.source) s t c g e,
              )
      ]
    ]
