-- ===== src/Infrastructure/Memory/Capacity.antt =====
-- What `_check_executor_capacity` makes sure of.
use Prim.Native.String.{◌++◌ as joined}
use dispatch_core.Shared.{
  ◌≡◌, ◌≢◌, inl, inr, true, false, ◌==◌, string_eq, eq_iff, eq_cases, String, some, List, [], ◌∷◌,
  any, arith, Option-cases, Bool-cases,
}
use dispatch_core.Shared.Dict.{Dict, get, values}
use dispatch_core.Domain.Errors.{ok}
use dispatch_core.Domain.WorkOrder.{WorkOrder}
use dispatch_core.Infrastructure.Memory.Commit.{check_capacity, occupied_key, is_occupying}

-- Who is found after the check under `keys` is free of these.
free_of_check :
    (keys : List String) (d : Dict String WorkOrder) (j k : String) (p : WorkOrder)
    → check_capacity keys (values d) ≡ ok tt
    → get d j ≡ some p
    → occupied_key p ≡ some k
    → any (λ x. x == k) keys ≡ false
unfolding check_capacity get
free_of_check keys [] j k p h e f = absurd (ground arith)
free_of_check keys ((i, o) ∷ d) j k p h e f = elim (Option-cases (occupied_key o)) [
  | inl n ↦ ground (arith, free_of_check keys d j k p, eq_iff i j)
  | inr (x, n) ↦
      ground (
        arith,
        free_of_check keys d j k p,
        free_of_check (x ∷ keys) d j k p,
        eq_iff i j,
        eq_iff x k,
      )
]

distinct_keys :
    (keys : List String) (d : Dict String WorkOrder) (i j k : String) (o p : WorkOrder)
    → check_capacity keys (values d) ≡ ok tt
    → i ≢ j
    → get d i ≡ some o
    → get d j ≡ some p
    → occupied_key o ≡ some k
    → occupied_key p ≢ some k
unfolding check_capacity get
distinct_keys keys [] i j k o p h ne e f g w = ground arith
distinct_keys keys ((x, q) ∷ d) i j k o p h ne e f g w = elim (eq_cases x i) [
  | inl first ↦ ground (arith, free_of_check (k ∷ keys) d j k p, eq_iff x i, eq_iff x j, eq_iff k k)
  | inr later ↦ elim (eq_cases x j) [
    | inl second ↦
        ground (arith, free_of_check (k ∷ keys) d i k o, eq_iff x i, eq_iff x j, eq_iff k k)
    | inr other ↦ elim (Option-cases (occupied_key q)) [
      | inl n ↦ ground (arith, distinct_keys keys d i j k o p, eq_iff x i, eq_iff x j)
      | inr (z, n) ↦ ground (arith, distinct_keys (z ∷ keys) d i j k o p, eq_iff x i, eq_iff x j)
    ]
  ]
]

-- Where the capacity check passes on the stored orders, of two different orders of one organization
-- with one assignee at most one occupies the assignee.
pub one_active_order :
    (d : Dict String WorkOrder) (i j a : String) (o p : WorkOrder)
    → check_capacity [] (values d) ≡ ok tt
    → get d i ≡ some o
    → get d j ≡ some p
    → i ≢ j
    → o.organization_id ≡ p.organization_id
    → o.assignee_id ≡ some a
    → p.assignee_id ≡ some a
    → is_occupying o.status ≡ true
    → is_occupying p.status ≡ false
unfolding occupied_key
one_active_order d i j a o p h e f ne org x y busy = elim (Bool-cases (is_occupying p.status)) [
  | inr idle ↦ idle
  | inl too ↦
      let key : String = joined o.organization_id (joined ":" a) in
      absurd (distinct_keys [] d i j key o p h ne e f (rw (x, busy)) (rw (y, too, ← org)))
]
