-- ===== src/Interleaving/Calls.antt =====
-- Every call of the asynchronous service over the store in memory is steady.
use dispatch_core.Shared.{
  inl, inr, Bool-cases, String, pair_eq, string_eq, Option, none, [], ◌∷◌, ◌++◌, Option-cases,
}
use dispatch_core.Shared.Dict.{get, put}
use dispatch_core.Domain.Errors.{Result, Result-cases}
use dispatch_core.Domain.Events.{Ambient}
use dispatch_core.Domain.WorkOrder
use dispatch_core.Domain.WorkOrder.{WorkOrder, Command, apply, CompletionReport}
use dispatch_core.Domain.Tracking
use dispatch_core.Domain.Tracking.{TrackingSession, Fresh}
use dispatch_core.Infrastructure.Memory.{at_most_one, matches}
use dispatch_core.Application.AsyncService
use dispatch_core.Application.AsyncService.{same_submission}
use dispatch_core.Application.Service.{OrderRequest, submission, travel_start}
use dispatch_core.Domain.OrderNumbers.{format_order_number}
use dispatch_core.Infrastructure.AsyncMemory.{
  AsyncMemoryStore, async_memory, get_order, save_order, add_events, commit, save_session,
  find_active_for_order, allocate_public_number, next_sequence,
}
use dispatch_core.Interleaving.Growth.{IsFiled, Follows, Follows-trans, Follows-IsFiled}
use dispatch_core.Interleaving.Steady.{Steady, recover-Steady}
use dispatch_core.Interleaving.Fitting.{
  Moves, apply-Moves, SessionMoves, staged_order, staged_session, order-Fits, session-Fits,
  active_stored, commits, stays, new_order-Fits, new_session-Fits, numbered-Follows,
}

module _ (organization_id order_id : String) (change : WorkOrder → Result WorkOrder)
    (moves : Moves change) where
  pub change_order-Steady :
      (s : AsyncMemoryStore)
      → Steady (AsyncService.change_order async_memory organization_id order_id change) s
  unfolding AsyncService.change_order get_order save_order add_events commit put
  change_order-Steady s t g = elim (Option-cases (get t.orders (organization_id, order_id))) [
    | inl e ↦ rw e (stays s t g, tt)
    | inr (o, e) ↦ elim (Result-cases (change o)) [
      | inr (x, f) ↦ rw (e, f) (stays s t g, tt)
      | inl (o', f) ↦
          rw (e, f)
            (
              stays s t g,
              λ u h.
                  commits (staged_order o o' ∷ []) [] o'.events (record o' { events = [] }) u
                    (Follows-IsFiled t u h)
                    (order-Fits t u (organization_id, order_id) o o' (Follows-IsFiled s t g) h e
                      (moves o o' f))
                    (tt {0}),
            )
    ]
  ]

  -- The rest of closing an order, after the order `o`, read at `t`, was changed to `o'`.
  pub close_order-Steady :
      (close : TrackingSession → Result TrackingSession) (s : AsyncMemoryStore)
      → SessionMoves close
      → Steady (AsyncService.close_order async_memory organization_id order_id change close) s
  unfolding AsyncService.close_order get_order save_order find_active_for_order save_session
      add_events commit put
  close_order-Steady close s closes t g =
      elim (Option-cases (get t.orders (organization_id, order_id))) [
        | inl e ↦ rw e (stays s t g, tt)
        | inr (o, e) ↦ elim (Result-cases (change o)) [
          | inr (x, f) ↦ rw (e, f) (stays s t g, tt)
          | inl (o', f) ↦
              let fits = λ (v : AsyncMemoryStore) (l : Follows t v).
                order-Fits t v (organization_id, order_id) o o' (Follows-IsFiled s t g) l e
                  (moves o o' f) in
              rw (e, f)
                (
                  stays s t g,
                  λ u h. (
                    stays t u h,
                    elim (Result-cases
                        (at_most_one (matches organization_id order_id u.tracking_sessions))) [
                          | inr (x, k) ↦ rw k tt
                          | inl (session, k) ↦ rw k (elim (Option-cases session) [
                            | inl n ↦ rw n (λ v l.
                                commits (staged_order o o' ∷ []) [] (o'.events ++ [])
                                  (record o' { events = [] }) v (Follows-IsFiled u v l)
                                  (fits v (Follows-trans t u v h l)) (tt {0}))
                            | inr (c, n) ↦ elim (Result-cases (close c)) [
                              | inr (x, m) ↦ rw (n, m) tt
                              | inl (c', m) ↦
                                  rw (n, m)
                                    (λ v l.
                                      let (key, stored) =
                                        active_stored organization_id order_id u.tracking_sessions
                                          (Follows-IsFiled t u h).sessions.distinct (rw n at k) in
                                      commits (staged_order o o' ∷ []) (staged_session c c' ∷ [])
                                        (o'.events ++ c'.events) (record o' { events = [] }) v
                                        (Follows-IsFiled u v l) (fits v (Follows-trans t u v h l))
                                        (session-Fits u v key c c' (Follows-IsFiled t u h) l stored
                                          (closes c c' m)))
                            ]
                          ])
                        ],
                  ),
                )
        ]
      ]

module _ (a : OrderRequest) (order_id : String) (env : Ambient) where
  pub create_new_order-Steady :
      (s : AsyncMemoryStore) → Steady (AsyncService.create_new_order async_memory a order_id env) s
  unfolding AsyncService.create_new_order allocate_public_number save_order add_events commit put
  create_new_order-Steady s t g =
      elim (Result-cases (format_order_number (next_sequence a.organization_id t))) [
        | inr (x, e) ↦ rw e (numbered-Follows a.organization_id s t g, tt)
        | inl (number, e) ↦
            elim (Result-cases (WorkOrder.create (submission a order_id number) none env)) [
              | inr (x, f) ↦ rw (e, f) (numbered-Follows a.organization_id s t g, tt)
              | inl (o, f) ↦
                  rw (e, f)
                    (
                      numbered-Follows a.organization_id s t g,
                      λ u h.
                          commits
                            ((
                              (o.organization_id, o.id),
                              record {
                                snapshot = record o { events = [] };
                                expected_version = none;
                              },
                            )
                              ∷ [])
                            [] o.events (record o { events = [] }) u (Follows-IsFiled _ u h)
                            (new_order-Fits u o) (tt {0}),
                    )
            ]
      ]

  pub existing_order-Steady :
      (s : AsyncMemoryStore) → Steady (AsyncService.existing_order async_memory a order_id env) s
  unfolding AsyncService.existing_order get_order commit
  existing_order-Steady s t g = elim (Option-cases (get t.orders (a.organization_id, order_id))) [
    | inl e ↦ rw e (stays s t g, tt)
    | inr (o, e) ↦
        elim (Result-cases (WorkOrder.create (submission a order_id o.public_number) none env)) [
          | inr (x, f) ↦ rw (e, f) (stays s t g, tt)
          | inl (c, f) ↦ elim (Bool-cases (same_submission o c)) [
            | inr n ↦ rw (e, f, n) (stays s t g, tt)
            | inl y ↦
                rw (e, f, y)
                  (
                    stays s t g,
                    λ u h. commits [] [] [] o u (Follows-IsFiled t u h) (tt {0}) (tt {0}),
                  )
          ]
        ]
  ]

pub create_order_once-Steady :
    (a : OrderRequest) (order_id : String) (env env' : Ambient) (s : AsyncMemoryStore)
    → IsFiled s
    → Steady (AsyncService.create_order_once async_memory a order_id env env') s
unfolding AsyncService.create_order_once
create_order_once-Steady a order_id env env' s filed =
    recover-Steady _ _ s (create_new_order-Steady (record a { order_id = none }) order_id env s)
      (λ t g. existing_order-Steady (record a { order_id = none }) order_id env' t) filed

pub start_travel-Steady :
    (organization_id order_id executor_id : String) (session_id : Option String) (uuid : String)
    (fresh : Fresh) (env env' : Ambient) (s : AsyncMemoryStore)
    → Steady
        (AsyncService.start_travel async_memory organization_id order_id executor_id session_id uuid
          fresh env env')
        s
unfolding AsyncService.start_travel get_order save_order save_session add_events commit put
start_travel-Steady organization_id order_id executor_id session_id uuid fresh env env' s t g =
    elim (Option-cases (get t.orders (organization_id, order_id))) [
      | inl e ↦ rw e (stays s t g, tt)
      | inr (o, e) ↦ elim (Result-cases (WorkOrder.start_travel executor_id none env o)) [
        | inr (x, f) ↦ rw (e, f) (stays s t g, tt)
        | inl (o', f) ↦
            elim (Result-cases (
              Tracking.start (travel_start session_id uuid organization_id o'.id executor_id) none
                fresh env')) [
                  | inr (x, k) ↦ rw (e, f, k) (stays s t g, tt)
                  | inl (c, k) ↦
                      rw (e, f, k)
                        (
                          stays s t g,
                          λ u h.
                              commits (staged_order o o' ∷ [])
                                ((
                                  (c.organization_id, c.id),
                                  record {
                                    snapshot = record c { events = [] };
                                    expected_version = none;
                                  },
                                )
                                  ∷ [])
                                (o'.events ++ c.events)
                                (record o' { events = [] }, record c { events = [] }) u
                                (Follows-IsFiled t u h)
                                (order-Fits t u (organization_id, order_id) o o'
                                  (Follows-IsFiled s t g) h e
                                  (apply-Moves (Command.start_travel executor_id) env o o'
                                    (unfold apply in f)))
                                (new_session-Fits u c),
                        )
                ]
      ]
    ]
