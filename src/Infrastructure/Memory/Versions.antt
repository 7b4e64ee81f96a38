-- ===== src/Infrastructure/Memory/Versions.antt =====
-- What `_check_versions` refuses: a unit whose copy of an order is out of date.
use dispatch_core.Shared.{
  ℕ, ◌≡◌, ◌≢◌, inl, inr, string_eq, eq_iff, String, some, [], ◌∷◌, arith, ==ℕ_iff,
}
use dispatch_core.Shared.Dict.{Dict, get}
use dispatch_core.Domain.Errors.{Error, err, concurrency_conflict, Conflict, Result-cases}
use dispatch_core.Domain.WorkOrder.{WorkOrder}
use dispatch_core.Infrastructure.Memory.Store.{Staged, InMemoryUnitOfWork}
use dispatch_core.Infrastructure.Memory.Commit.{
  commit, check_versions, check_collection_versions, check_version, version_of,
}

abbrev version : WorkOrder → ℕ
version o = o.version

-- One staged entry that does not fit is enough.
stale_refused :
    (stored : Dict String WorkOrder) (staged : Dict String (Staged WorkOrder)) (k : String)
    (x : Staged WorkOrder)
    → get staged k ≡ some x
    → ((e : Error) × (check_version x.expected_version (version_of version (get stored k)) ≡ err e))
    → (e : Error) × (check_collection_versions version stored staged ≡ err e)
unfolding get check_collection_versions
stale_refused stored [] k x h (e, bad) = absurd (ground arith)
stale_refused stored ((j, y) ∷ staged) k x h (e, bad) =
    elim (Result-cases (check_version y.expected_version (version_of version (get stored j)))) [
      | inr (f, here) ↦ (f, rw here)
      | inl (u, fine) ↦
          let (f, there) = stale_refused stored staged k x (ground (arith, eq_iff j k)) (e, bad) in
          (f, rw fine there)
    ]

-- If a unit staged an order it had read at one version, and the store has that order at another
-- version now, committing raises and leaves the unit and its store as they were.
pub commit-stale :
    (u : InMemoryUnitOfWork) (k : String) (x : Staged WorkOrder) (current : WorkOrder) (read : ℕ)
    → get u.staged_orders k ≡ some x
    → x.expected_version ≡ some read
    → get u.store.orders k ≡ some current
    → current.version ≢ read
    → (e : Error) × (commit u ≡ (err e, u))
unfolding commit check_versions
commit-stale u k x current read staged expected stored differ =
    let (e, refused) = stale_refused u.store.orders u.staged_orders k x staged (
      concurrency_conflict Conflict.stale_version,
      rw (expected, stored) (ground (arith, ==ℕ_iff current.version read)),
    ) in
    (e, rw refused)
