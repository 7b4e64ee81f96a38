-- ===== src/Interleaving/Uninterrupted.antt =====
-- What a change of an order does when nothing interrupts it
-- (src/dispatch_core/application/async_service.py, `_change_order`).
use dispatch_core.Shared.{◌≡◌, ◌<◌, refl, String, pair_eq, none, some, List, [], ◌∷◌, arith}
use dispatch_core.Shared.Dict.{get, put}
use dispatch_core.Domain.Errors.{Error, Result, ok, err, not_found, concurrency_conflict, Conflict}
use dispatch_core.Domain.WorkOrder.{WorkOrder}
use dispatch_core.Application.AsyncService
use dispatch_core.Application.Task.{Task, alone, continue, after, with_unit, pure, finished}
use dispatch_core.Infrastructure.AsyncMemory.{
  Key, write_if, AsyncMemoryUnitOfWork, AsyncMemoryStore, async_memory, get_order, save_order,
  add_events, commit, checks, check_versions,
}
use dispatch_core.Infrastructure.Memory.{check_collection_versions}
use dispatch_core.Interleaving.Growth.{Follows}
use dispatch_core.Interleaving.Trace.{Moment, Runs, Runs-finished}
use dispatch_core.Interleaving.Fitting.{staged_order, unit_of, done_unit}

-- What a unit answers, when its commit ended so.
abbrev pub answered : {A : Type 0} → Result (Unit {0}) → A → Result A
answered (ok x) a = ok a
answered (err e) a = err e

pub Runs_ends :
    {A : Type 0} (c : Result (Unit {0})) (a : A) (s : AsyncMemoryStore) (ms : List Moment)
    (r : Result A) (s' : AsyncMemoryStore)
    → Runs
        (continue
          (after (with_unit c done_unit) (λ x. pure {U = AsyncMemoryUnitOfWork} a))
          (λ a u. finished (ok a)))
        s
        ms
        r
        s'
    → (ms ≡ []) × (answered c a ≡ r) × Follows s s'
Runs_ends (ok x) a s ms r s' h = Runs-finished (ok a) s ms r s' h
Runs_ends (err e) a s ms r s' h = Runs-finished (err e) s ms r s' h

pub alone_ends :
    {A : Type 0} (c : Result (Unit {0})) (a : A) (s : AsyncMemoryStore)
    → alone
        (continue
          (after (with_unit c done_unit) (λ x. pure {U = AsyncMemoryUnitOfWork} a))
          (λ a u. finished (ok a)))
        s
      ≡ (answered c a, s)
unfolding alone
alone_ends (ok x) a s = refl
alone_ends (err e) a s = refl

-- The unit that saves a changed order.
abbrev pub saving : WorkOrder → WorkOrder → AsyncMemoryUnitOfWork
saving o o' = unit_of (staged_order o o' ∷ []) [] o'.events

-- Nobody else's order of a higher version is overwritten.
pub checks_stale :
    (o o' b : WorkOrder) (u : AsyncMemoryStore)
    → get u.orders (o'.organization_id, o'.id) ≡ some b
    → o.version < b.version
    → checks (saving o o') u ≡ err (concurrency_conflict Conflict.stale_version)
unfolding check_versions check_collection_versions
checks_stale o o' b u e more = rw e (ground arith)

-- A changed order is saved where the order stood.
pub filed_at :
    (organization_id order_id : String) (o o' : WorkOrder)
    → o'.id ≡ o.id
    → o'.organization_id ≡ o.organization_id
    → ◌≡◌ {A = Key} (o.organization_id, o.id) (organization_id, order_id)
    → ◌≡◌ {A = Key} (o'.organization_id, o'.id) (organization_id, order_id)
filed_at organization_id order_id o o' id org here = rw (id, org) here

module _ (organization_id order_id : String) (change : WorkOrder → Result WorkOrder)
    (t : AsyncMemoryStore) where
  abbrev pub program : Task AsyncMemoryStore WorkOrder
  program = AsyncService.change_order async_memory organization_id order_id change

  pub alone_missing :
      get t.orders (organization_id, order_id) ≡ none → alone program t ≡ (err not_found, t)
  unfolding AsyncService.change_order get_order save_order add_events commit put alone
  alone_missing e = rw (e, alone)

  pub alone_refused :
      (o : WorkOrder) (x : Error)
      → get t.orders (organization_id, order_id) ≡ some o
      → change o ≡ err x
      → alone program t ≡ (err x, t)
  unfolding AsyncService.change_order get_order save_order add_events commit put alone
  alone_refused o x e f = rw (e, f, alone)

  pub alone_saved :
      (o o' : WorkOrder)
      → get t.orders (organization_id, order_id) ≡ some o
      → change o ≡ ok o'
      → alone program t ≡ (
        answered (checks (saving o o') t) (record o' { events = [] }),
        write_if (checks (saving o o') t) (saving o o') t,
      )
  unfolding AsyncService.change_order get_order save_order add_events commit put alone
  alone_saved o o' e f =
      rw (e, f, alone) (alone_ends (checks (saving o o') t) (record o' { events = [] }) _)
