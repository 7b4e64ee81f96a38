-- ===== src/Dispatch/Creation.antt =====
-- What `create_order` does to the store.
use dispatch_core.Shared.{ℕ, ◌+◌, ◌≡◌, String, none, [], arith, string_eq, inl, inr}
use dispatch_core.Shared.Dict.{get, put, values}
use dispatch_core.Domain.Errors.{ok, err, Error, Result-cases}
use dispatch_core.Domain.Events.{Ambient}
use dispatch_core.Domain.OrderNumbers.{format_order_number}
use dispatch_core.Domain.WorkOrder
use dispatch_core.Domain.WorkOrder.{WorkOrder}
use dispatch_core.Application.Service.{OrderRequest, submission, create_order}
use dispatch_core.Infrastructure.Memory.{
  MemoryStore, in_memory, allocate_public_number, or_zero, save_order, add_events, commit,
  check_versions, check_capacity, check_executor_capacity, written,
}
use dispatch_core.Dispatch.Change.{store_order}

-- The next sequence of an organization.
abbrev pub next_sequence : String → MemoryStore → ℕ
next_sequence organization_id s = or_zero (get s.order_number_counters organization_id) + 1

-- The store with the counter moved on.
abbrev pub numbered : String → MemoryStore → MemoryStore
numbered organization_id s = record s {
  order_number_counters =
      put s.order_number_counters organization_id (next_sequence organization_id s);
}

-- A new order under a new id, with the next number of its organization.
pub record Creates (a : OrderRequest) (uuid : String) (env : Ambient) (s : MemoryStore)
    (order : WorkOrder) (s' : MemoryStore) : Type 0 where
  pub number : String
  pub made : WorkOrder
  pub is_numbered : format_order_number (next_sequence a.organization_id s) ≡ ok number
  pub is_made : WorkOrder.create (submission a uuid number) none env ≡ ok made
  pub is_new : get s.orders made.id ≡ none
  pub capacity :
      check_capacity [] (values (put s.orders made.id (record made { events = [] }))) ≡ ok tt
  pub result : order ≡ record made { events = [] }
  pub store : s' ≡ store_order made (numbered a.organization_id s)

module _ (a : OrderRequest) (uuid : String) (env : Ambient) (s : MemoryStore) where
  -- A creation that raises has used up a number, and changes nothing else.
  pub create_order-err :
      {e : Error} {s' : MemoryStore}
      → create_order in_memory a uuid env s ≡ (err e, s')
      → s' ≡ numbered a.organization_id s
  unfolding create_order allocate_public_number save_order add_events commit
  create_order-err h = ground arith

  -- A call of `create_order` that succeeds has the next number of the organization's counter, made
  -- the order with it, found no order stored under its identifier, kept the orders within the
  -- executors' capacity, moved the counter on by one, stored the order without pending events, and
  -- appended its events to the outbox.
  pub create_order-ok :
      {order : WorkOrder} {s' : MemoryStore}
      → create_order in_memory a uuid env s ≡ (ok order, s')
      → Creates a uuid env s order s'
  unfolding create_order allocate_public_number save_order add_events commit written
      check_executor_capacity check_versions put
  create_order-ok h =
      elim (Result-cases (format_order_number (next_sequence a.organization_id s))) [
        | inr (x, e) ↦ absurd (ground arith)
        | inl (number, e) ↦
            elim (Result-cases (WorkOrder.create (submission a uuid number) none env)) [
              | inr (x, f) ↦ absurd (ground arith)
              | inl (made, f) ↦ record {
                number = number;
                made = made;
                is_numbered = e;
                is_made = f;
                is_new = ground arith;
                capacity = ground arith;
                result = ground arith;
                store = ground arith;
              }
            ]
      ]
