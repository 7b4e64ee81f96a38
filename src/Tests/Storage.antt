-- ===== src/Tests/Storage.antt =====
-- The in-memory unit of work.
use dispatch_core.Shared.{◌≡◌, refl, false, none, some, [], ◌∷◌, arith, eq_iff, string_eq}
use dispatch_core.Shared.Dict.{get}
use dispatch_core.Domain.Errors.{Error, err}
use dispatch_core.Domain.WorkOrder.{WorkOrder, WorkOrderStatus}
use dispatch_core.Infrastructure.Memory.{
  InMemoryUnitOfWork, Staged, begin, commit, check_capacity, is_occupying, occupied_key,
}
use dispatch_core.Infrastructure.Memory.Capacity.{one_active_order}
use dispatch_core.Infrastructure.Memory.Versions.{commit-stale}
use dispatch_core.Tests.Data.{order_in, store_with}

abbrev taken : WorkOrder
taken = order_in WorkOrderStatus.assigned none (some "ann")

abbrev waiting : WorkOrder
waiting = let o = order_in WorkOrderStatus.cancelled none (some "ann") in record o { id = "w-2" }

one_active_order_example : is_occupying waiting.status ≡ false
unfolding get check_capacity occupied_key
one_active_order_example =
    one_active_order (("w-1", taken) ∷ ("w-2", waiting) ∷ []) "w-1" "w-2" "ann" taken waiting refl
      refl refl (ground (arith, eq_iff "w-1" "w-2")) refl refl refl refl

-- A unit that read version 2 of the order that stands at version 3.
abbrev stale : Staged WorkOrder
stale = record { snapshot = taken; expected_version = some 2 }

abbrev late : InMemoryUnitOfWork
late = let u = begin (store_with taken) in record u { staged_orders = ("w-1", stale) ∷ [] }

commit-stale_example : (e : Error) × (commit late ≡ (err e, late))
unfolding get
commit-stale_example = commit-stale late "w-1" stale taken 2 refl refl refl (omega arith)
