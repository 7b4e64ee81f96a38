-- ===== src/Dispatch/Counts.antt =====
-- How writing a session changes the number of active sessions of each order.
use dispatch_core.Shared.{
  ◌+◌, ◌≡◌, ◌≢◌, ◌⊎◌, inl, inr, true, false, String, eq_iff, pair_eq, none, some, arith,
}
use dispatch_core.Shared.Dict.{get, put}
use dispatch_core.Domain.Tracking.{TrackingSession, is_active}
use dispatch_core.Infrastructure.Memory.{is_match}
use dispatch_core.Dispatch.Sessions.{Sessions, active_count, active_count-put, kept_session}

module _ (organization_id order_id : String) (d : Sessions) (key : String × String) where
  -- Closing an active session of the order.
  pub count_close :
      (t t' : TrackingSession)
      → get d key ≡ some t
      → is_match organization_id order_id key t ≡ true
      → is_active t'.status ≡ false
      → active_count organization_id order_id (put d key (kept_session t')) + 1
        ≡ active_count organization_id order_id d
  count_close t t' e m c =
      ground (arith, active_count-put organization_id order_id d key (kept_session t'))

  -- Opening one under a new key.
  pub count_open :
      (t' : TrackingSession)
      → get d key ≡ none
      → is_match organization_id order_id key t' ≡ true
      → active_count organization_id order_id (put d key (kept_session t'))
        ≡ active_count organization_id order_id d + 1
  count_open t' e m =
      ground (arith, active_count-put organization_id order_id d key (kept_session t'))

  -- Going on with a session.
  pub count_same :
      (t t' : TrackingSession)
      → get d key ≡ some t
      → t'.work_order_id ≡ t.work_order_id
      → t'.status ≡ t.status
      → active_count organization_id order_id (put d key (kept_session t'))
        ≡ active_count organization_id order_id d
  count_same t t' e w c =
      ground (arith, active_count-put organization_id order_id d key (kept_session t'))

  -- Writing a session of another order, or of another organization.
  pub count_other :
      (t' : TrackingSession) (organization_id' order_id' : String)
      → ((organization_id' ≢ organization_id) ⊎ (order_id' ≢ order_id))
      → key.0 ≡ organization_id'
      → t'.work_order_id ≡ order_id'
      → ((get d key ≡ none)
          ⊎ ((t : TrackingSession) × (get d key ≡ some t) × (t.work_order_id ≡ order_id')))
      → active_count organization_id order_id (put d key (kept_session t'))
        ≡ active_count organization_id order_id d
  count_other t' organization_id' order_id' ne e w (inl none_there) = ground (
    arith,
    active_count-put organization_id order_id d key (kept_session t'),
    eq_iff key.0 organization_id,
    eq_iff t'.work_order_id order_id,
  )
  count_other t' organization_id' order_id' ne e w (inr (t, there, same)) = ground (
    arith,
    active_count-put organization_id order_id d key (kept_session t'),
    eq_iff key.0 organization_id,
    eq_iff t'.work_order_id order_id,
    eq_iff t.work_order_id order_id,
  )
