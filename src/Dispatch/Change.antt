-- ===== src/Dispatch/Change.antt =====
-- What `_change_order` does to the store.
use dispatch_core.Shared.{
  ◌≡◌, ◌++◌, String, some, [], arith, eq_iff, string_eq, pair_eq, Option-cases, inl, inr,
}
use dispatch_core.Shared.Dict.{get, put, values}
use dispatch_core.Domain.Errors.{Result, ok, err, Error, Result-cases}
use dispatch_core.Domain.WorkOrder.{WorkOrder}
use dispatch_core.Application.Service.{change_order}
use dispatch_core.Infrastructure.Memory.{
  MemoryStore, in_memory, get_order, save_order, add_events, commit, check_capacity,
  check_executor_capacity, written, merge, write_all,
}

-- The store with one order written and its events sent.
abbrev pub store_order : WorkOrder → MemoryStore → MemoryStore
store_order o s = record s {
  orders = put s.orders o.id (record o { events = [] });
  outbox_events = s.outbox_events ++ o.events;
}

-- `order` came of a stored order of the organization, found under its id, by `change`, and was written
-- to the store with its events, where it leaves every executor with one order at most.
pub record Changes (organization_id order_id : String) (change : WorkOrder → Result WorkOrder)
    (s : MemoryStore) (order : WorkOrder) (s' : MemoryStore) : Type 0 where
  pub found : WorkOrder
  pub changed : WorkOrder
  pub is_stored : get s.orders order_id ≡ some found
  pub is_owned : found.organization_id ≡ organization_id
  pub is_changed : change found ≡ ok changed
  pub capacity :
      check_capacity [] (values (put s.orders changed.id (record changed { events = [] }))) ≡ ok tt
  pub result : order ≡ record changed { events = [] }
  pub store : s' ≡ store_order changed s

module _ (organization_id order_id : String) (change : WorkOrder → Result WorkOrder)
    (s : MemoryStore) where
  -- A call that raises leaves the store alone.
  pub change_order-err :
      {e : Error} {s' : MemoryStore}
      → change_order in_memory organization_id order_id change s ≡ (err e, s')
      → s' ≡ s
  unfolding change_order get_order save_order add_events commit
  change_order-err h = ground arith

  -- A command on an order that succeeds found the stored order of the organization, changed it as
  -- the command says, kept the orders within the executors' capacity, stored the changed order
  -- without pending events, appended its events to the outbox, and touched nothing else.
  pub change_order-ok :
      {order : WorkOrder} {s' : MemoryStore}
      → change_order in_memory organization_id order_id change s ≡ (ok order, s')
      → Changes organization_id order_id change s order s'
  unfolding change_order get_order save_order add_events commit written check_executor_capacity
      merge write_all put
  change_order-ok h = elim (Option-cases (get s.orders order_id)) [
    | inl e ↦ absurd (ground arith)
    | inr (o, e) ↦ elim (Result-cases (change o)) [
      | inr (x, f) ↦ absurd (ground arith)
      | inl (o', f) ↦ record {
        found = o;
        changed = o';
        is_stored = e;
        is_owned = ground (arith, eq_iff o.organization_id organization_id);
        is_changed = f;
        capacity = ground arith;
        result = ground arith;
        store = ground arith;
      }
    ]
  ]
