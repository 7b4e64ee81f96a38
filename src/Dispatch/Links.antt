-- ===== src/Dispatch/Links.antt =====
-- Every way in which the service writes the store keeps the sessions linked to their orders.
use dispatch_core.Shared.{
  ℕ, zero, suc, ◌≡◌, ◌≢◌, refl, sym, ◌∙◌, ap, ◌⊎◌, inl, inr, true, false, String, eq_cases,
  string_eq, pair_eq, eq_iff, none, some, [], ◌∷◌, arith, length,
}
use dispatch_core.Shared.Dict.{get, put, put-Distinct}
use dispatch_core.Domain.WorkOrder.{WorkOrder, WorkOrderStatus}
use dispatch_core.Domain.Tracking.{TrackingSession, is_active}
use dispatch_core.Domain.Tracking.Invariant.{IsValid}
use dispatch_core.Domain.Tracking.Frame.{Continues}
use dispatch_core.Infrastructure.Memory.{MemoryStore, matches, is_match}
use dispatch_core.Dispatch.Sessions.{
  IsTracked, IsLinked, is_moving, active_count, IsLinked-go, IsLinked-put, matches_found,
  write-IsKept, kept_session,
}
use dispatch_core.Dispatch.Orders.{cleared}
use dispatch_core.Dispatch.Closing.{put_session}
use dispatch_core.Dispatch.Counts.{count_close, count_open, count_same, count_other}

-- Another organization's link, and one of a status that has no session, says only that there is none.
none_of_foreign :
    (x : String) (o : WorkOrder) (n : ℕ)
    → ((o.organization_id ≢ x) ⊎ (is_moving o.status ≡ false))
    → IsLinked x (some o) n
    → n ≡ 0
none_of_foreign x o zero h l = refl
none_of_foreign x o (suc zero) (inl ne) l = absurd (ne l.0)
none_of_foreign x o (suc zero) (inr e) l = cc (l.1)
none_of_foreign x o (suc (suc n)) h l = absurd l

pair_path : (a b : String) (k : String × String) → a ≡ k.0 → b ≡ k.1 → (a, b) ≡ k
pair_path a b k p q = λ i. (p i, q i)

is_match_parts :
    (organization_id order_id : String) (k : String × String) (t : TrackingSession)
    → is_match organization_id order_id k t ≡ true
    → (k.0 ≡ organization_id) × (t.work_order_id ≡ order_id)
is_match_parts x j k t h = ground (arith, eq_iff k.0 x, eq_iff t.work_order_id j)

module _ (id : String) (o o' : WorkOrder) (s : MemoryStore) (tracked : IsTracked s)
    (stored : get s.orders id ≡ some o) (key : o'.id ≡ id)
    (org : o'.organization_id ≡ o.organization_id) where
  link : (x : String) → IsLinked x (some o) (active_count x id s.tracking_sessions)
  link x = rw (← stored) (tracked.linked x id)

  -- The order goes on with the sessions as they are.
  pub move-IsTracked :
      (is_moving o.status ≡ true → is_moving o'.status ≡ true)
      → (o'.status ≡ WorkOrderStatus.en_route → o.status ≡ WorkOrderStatus.en_route)
      → (s' : MemoryStore) → s'.orders ≡ put s.orders o'.id (cleared o')
      → s'.tracking_sessions ≡ s.tracking_sessions
      → IsTracked s'
  move-IsTracked f g s' orders sessions = record {
    kept = λ k t q. tracked.kept k t (rw sessions at q);
    distinct = rw sessions tracked.distinct;
    linked =
        rw (orders, sessions)
          (IsLinked-put s o' s.tracking_sessions
            (λ x. rw key (
              IsLinked-go x o (cleared o') (active_count x id s.tracking_sessions) org f g
                (link x)))
            (λ x j ne. tracked.linked x j));
  }

  -- The order stops, and it had no active session.
  pub stop-IsTracked :
      o'.status ≢ WorkOrderStatus.en_route
      → active_count o.organization_id id s.tracking_sessions ≡ 0
      → (s' : MemoryStore) → s'.orders ≡ put s.orders o'.id (cleared o')
      → s'.tracking_sessions ≡ s.tracking_sessions
      → IsTracked s'
  stop-IsTracked off idle s' orders sessions = record {
    kept = λ k t q. tracked.kept k t (rw sessions at q);
    distinct = rw sessions tracked.distinct;
    linked =
        rw (orders, sessions)
          (IsLinked-put s o' s.tracking_sessions (λ x. rw (key, count x) (λ same. off))
            (λ x j ne. tracked.linked x j));
  }
    where
      count : (x : String) → active_count x id s.tracking_sessions ≡ 0
      count x = elim (eq_cases o.organization_id x) [
        | inl e ↦ rw (← e) idle
        | inr ne ↦ none_of_foreign x o (active_count x id s.tracking_sessions) (inl ne) (link x)
      ]

  -- What is left when the one active session was closed.
  closed_count :
      (k : String × String) (t t' : TrackingSession)
      → get s.tracking_sessions k ≡ some t
      → is_match o.organization_id id k t ≡ true
      → matches o.organization_id id s.tracking_sessions ≡ t ∷ []
      → (is_active t'.status ≡ false) × (t'.work_order_id ≡ t.work_order_id)
      → (x : String) → active_count x id (put s.tracking_sessions k (kept_session t')) ≡ 0
  closed_count k t t' there match one (closed, same) x =
      let (own, work) = is_match_parts o.organization_id id k t match in
      elim (eq_cases o.organization_id x) [
        | inl e ↦ rw (← e) (
            omega (
              arith,
              ap length one,
              count_close o.organization_id id s.tracking_sessions k t t' there match closed,
            ))
        | inr ne ↦
            count_other x id s.tracking_sessions k t' o.organization_id id (inl ne) own
              (same ∙ work) (inr (t, there, work))
            ∙ none_of_foreign x o (active_count x id s.tracking_sessions) (inl ne) (link x)
      ]

  -- The order stops, and its active session is closed with it.
  pub close-IsTracked :
      (t t' : TrackingSession)
      → o'.status ≢ WorkOrderStatus.en_route
      → matches o.organization_id id s.tracking_sessions ≡ t ∷ []
      → (is_active t'.status ≡ false) × Continues t t'
      → (IsValid t → IsValid t')
      → (s' : MemoryStore) → s'.orders ≡ put s.orders o'.id (cleared o')
      → s'.tracking_sessions ≡ put_session t' s
      → IsTracked s'
  close-IsTracked t t' off one (closed, same) valid s' orders sessions =
      let (k, there, match) =
        matches_found o.organization_id id s.tracking_sessions {t = t} {ts = []} tracked.distinct
          one in
      let kept = tracked.kept k t there in
      let (own, work) = is_match_parts o.organization_id id k t match in
      let keys : (t'.organization_id, t'.id) ≡ k =
        pair_path t'.organization_id t'.id k (same.organization_id ∙ kept.organization_id)
          (same.id ∙ kept.id) in
      record {
        kept = λ j x q.
            write-IsKept s.tracking_sessions t' tracked.kept (valid kept.valid) j x
              (rw sessions at q);
        distinct = rw sessions (
            put-Distinct s.tracking_sessions (t'.organization_id, t'.id) (kept_session t')
              tracked.distinct);
        linked =
            rw (orders, sessions, keys)
              (IsLinked-put s o' (put s.tracking_sessions k (kept_session t'))
                (λ x.
                  rw (key, closed_count k t t' there match one (closed, same.work_order_id) x)
                    (λ e. off))
                (λ x j ne.
                  rw
                    (count_other x j s.tracking_sessions k t' o.organization_id id
                      (inr (λ e. ne (key ∙ e))) own (same.work_order_id ∙ work)
                      (inr (t, there, work)))
                    (tracked.linked x j)));
      }

  -- The order goes on its way, and a new session is opened for it.
  pub travel-IsTracked :
      (t' : TrackingSession)
      → is_moving o.status ≡ false
      → is_moving o'.status ≡ true
      → get s.tracking_sessions (t'.organization_id, t'.id) ≡ none
      → t'.organization_id ≡ o.organization_id
      → t'.work_order_id ≡ id
      → is_active t'.status ≡ true
      → IsValid t'
      → (s' : MemoryStore) → s'.orders ≡ put s.orders o'.id (cleared o')
      → s'.tracking_sessions ≡ put_session t' s
      → IsTracked s'
  travel-IsTracked t' still moving new own work live valid s' orders sessions = record {
    kept = λ j x q. write-IsKept s.tracking_sessions t' tracked.kept valid j x (rw sessions at q);
    distinct = rw sessions (
        put-Distinct s.tracking_sessions (t'.organization_id, t'.id) (kept_session t')
          tracked.distinct);
    linked =
        rw (orders, sessions)
          (IsLinked-put s o' (put s.tracking_sessions (t'.organization_id, t'.id) (kept_session t'))
            (λ x. rw key (opened x))
            (λ x j ne.
              rw
                (count_other x j s.tracking_sessions (t'.organization_id, t'.id) t'
                  o.organization_id id (inr (λ e. ne (key ∙ e))) own work (inl new))
                (tracked.linked x j)));
  }
    where
      idle : (x : String) → active_count x id s.tracking_sessions ≡ 0
      idle x = none_of_foreign x o (active_count x id s.tracking_sessions) (inr still) (link x)

      opened :
          (x : String)
          → IsLinked x (some (record o' { id = id; events = [] })) (
              active_count x id
                (put s.tracking_sessions (t'.organization_id, t'.id) (kept_session t')))
      opened x = elim (eq_cases o.organization_id x) [
        | inl e ↦
            rw
              (
                ← e,
                count_open o.organization_id id s.tracking_sessions (t'.organization_id, t'.id) t'
                    new
                    (ground (
                      arith,
                      eq_iff t'.organization_id o.organization_id,
                      eq_iff t'.work_order_id id,
                    )),
                idle o.organization_id,
              )
              (org, moving)
        | inr ne ↦
            rw
              (count_other x id s.tracking_sessions (t'.organization_id, t'.id) t' o.organization_id
                  id (inl ne) own work (inl new)
                ∙ idle x)
              (λ e. absurd (ne (sym org ∙ e)))
      ]

-- A session goes on, and the orders stay.
pub continue-IsTracked :
    (s : MemoryStore) (t t' : TrackingSession) (k : String × String)
    → IsTracked s
    → get s.tracking_sessions k ≡ some t
    → (t'.status ≡ t.status) × Continues t t'
    → (IsValid t → IsValid t')
    → (s' : MemoryStore) → s'.orders ≡ s.orders
    → s'.tracking_sessions ≡ put_session t' s
    → IsTracked s'
continue-IsTracked s t t' k tracked there (status, same) valid s' orders sessions =
    let kept = tracked.kept k t there in
    let keys : (t'.organization_id, t'.id) ≡ k =
      pair_path t'.organization_id t'.id k (same.organization_id ∙ kept.organization_id)
        (same.id ∙ kept.id) in
    record {
      kept = λ j x q.
          write-IsKept s.tracking_sessions t' tracked.kept (valid kept.valid) j x
            (rw sessions at q);
      distinct = rw sessions (
          put-Distinct s.tracking_sessions (t'.organization_id, t'.id) (kept_session t')
            tracked.distinct);
      linked = λ x j.
          rw
            (
              orders,
              sessions,
              keys,
              count_same x j s.tracking_sessions k t t' there same.work_order_id status,
            )
            (tracked.linked x j);
    }

-- A new order has no session.
pub create-IsTracked :
    (s : MemoryStore) (o' : WorkOrder)
    → IsTracked s
    → get s.orders o'.id ≡ none
    → o'.status ≢ WorkOrderStatus.en_route
    → (s' : MemoryStore) → s'.orders ≡ put s.orders o'.id (cleared o')
    → s'.tracking_sessions ≡ s.tracking_sessions
    → IsTracked s'
create-IsTracked s o' tracked new off s' orders sessions = record {
  kept = λ k t q. tracked.kept k t (rw sessions at q);
  distinct = rw sessions tracked.distinct;
  linked =
      rw (orders, sessions)
        (IsLinked-put s o' s.tracking_sessions
          (λ x.
            rw
              (none_linked x (active_count x o'.id s.tracking_sessions)
                (rw (← new) (tracked.linked x o'.id)))
              (λ e. off))
          (λ x j ne. tracked.linked x j));
}
  where
    none_linked : (x : String) (n : ℕ) → IsLinked x none n → n ≡ 0
    none_linked x zero h = refl
    none_linked x (suc zero) h = absurd h
    none_linked x (suc (suc n)) h = absurd h
