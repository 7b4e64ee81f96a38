-- ===== src/Interleaving/Retry.antt =====
-- A submission that is sent again.
use dispatch_core.Shared.{
  ◌≡◌, refl, sym, ◌∙◌, inl, inr, true, false, Bool-cases, String, is_empty, string_eq, pair_eq,
  none, some, [], arith, Option-cases,
}
use dispatch_core.Shared.Dict.{get, values, get-put_self}
use dispatch_core.Domain.Errors.{Result, ok, err, Result-cases, concurrency_conflict}
use dispatch_core.Domain.Errors.Error.{
  value_error, invalid_transition, evidence_missing, not_found, runtime_error,
}
use dispatch_core.Domain.Events.{Ambient}
use dispatch_core.Domain.Events.Equality.{same_details}
use dispatch_core.Domain.WorkOrder
use dispatch_core.Domain.WorkOrder.{WorkOrder, EvidenceRequirements, no_evidence}
use dispatch_core.Application.AsyncService
use dispatch_core.Application.AsyncService.{same_submission, same_option, same_evidence}
use dispatch_core.Application.Service.{OrderRequest, submission}
use dispatch_core.Application.Task.{alone}
use dispatch_core.Infrastructure.AsyncMemory.{
  AsyncMemoryStore, async_memory, get_order, commit, numbered, check_capacity,
  check_executor_capacity, written, checks, begin,
}
use dispatch_core.Infrastructure.Memory.{write_all}
use dispatch_core.Interleaving.Alone.{caught, alone-recover, fine_begin, next_number}
use dispatch_core.Interleaving.Submissions.{
  is_of, is_named, created-named, IsMade, created-IsMade, same_submission-eq-is_of, IsMade-is_of,
  first, second, saving, first-alone, first_refused, alone-second, again,
}

module _ (a : OrderRequest) (order_id : String) where
  -- What is so after a call that succeeded with the order `o`: the order is stored, and sent (again a order_id) the
  -- request gets it.
  record IsSettled (o : WorkOrder) (t : AsyncMemoryStore) : Type 0 where
    stored : get t.orders (a.organization_id, order_id) ≡ some o
    of_it : (is_of a order_id) o ≡ true
    has_number : is_empty o.public_number ≡ false
    named : (is_named a order_id) ≡ true
    fine : check_capacity [] (values t.orders) ≡ ok tt

  second_lem :
      (env : Ambient) (t : AsyncMemoryStore) {o : WorkOrder} {s' : AsyncMemoryStore}
      → alone ((second a order_id) env) t ≡ (ok o, s')
      → IsSettled o s'
  unfolding AsyncService.existing_order get_order commit alone
  second_lem env t {o} {s'} h = elim (Option-cases (get t.orders (a.organization_id, order_id))) [
    | inl e ↦ absurd (let bad = (rw (e, alone) at h) in ground arith)
    | inr (b, e) ↦
        elim (Result-cases (
          WorkOrder.create (submission (record a { order_id = none }) order_id b.public_number) none
            env)) [
              | inr (x, f) ↦ absurd (let bad = (rw (e, f, alone) at h) in ground arith)
              | inl (c, f) ↦ elim (Bool-cases (same_submission b c)) [
                | inr n ↦ absurd (let bad = (rw (e, f, n, alone) at h) in ground arith)
                | inl y ↦ elim (Result-cases (checks begin t)) [
                  | inr (x, k) ↦ absurd (let bad = (rw (e, f, y, alone, k) at h) in ground arith)
                  | inl (v, k) ↦
                      let ran = sym ((alone-second a order_id) env t b c e f y k) ∙ h in
                      let order : b ≡ o = ground arith in
                      let store : t ≡ s' = ground arith in
                      rw (← order, ← store)
                        (record {
                          stored = e;
                          of_it =
                              sym (
                                (same_submission-eq-is_of a order_id) b c
                                  ((created-IsMade a order_id) b.public_number env f))
                              ∙ y;
                          has_number = ((created-named a order_id) b.public_number env f).1;
                          named = ((created-named a order_id) b.public_number env f).0;
                          fine = fine_begin t k;
                        })
                ]
              ]
            ]
  ]

  saved_number :
      (env : Ambient) (number : String) {c : WorkOrder}
      → WorkOrder.create (submission (record a { order_id = none }) order_id number) none env ≡ ok c
      → c.public_number ≡ number
  unfolding WorkOrder.create
  saved_number env number f = ground arith

  saved_stored :
      (u : AsyncMemoryStore) (c : WorkOrder)
      → (IsMade a order_id) c
      → get (written ((saving a order_id) c) u).orders (a.organization_id, order_id)
        ≡ some (record c { events = [] })
  unfolding written write_all
  saved_stored u c m =
      rw (← m.organization_id, ← m.id)
        (get-put_self u.orders (c.organization_id, c.id) (record c { events = [] }))

  saved_fine :
      (u : AsyncMemoryStore) (c : WorkOrder)
      → checks ((saving a order_id) c) u ≡ ok tt
      → check_capacity [] (values (written ((saving a order_id) c) u).orders) ≡ ok tt
  unfolding written check_executor_capacity
  saved_fine u c k = ground arith

  first_lem :
      (env : Ambient) (t : AsyncMemoryStore) {o : WorkOrder} {s' : AsyncMemoryStore}
      → same_details a.details a.details ≡ true
      → alone ((first a order_id) env) t ≡ (ok o, s')
      → IsSettled o s'
  first_lem env t {o} {s'} same h =
      let u : AsyncMemoryStore = numbered a.organization_id t in
      let (number, numbers) = next_number a.organization_id t in
      elim (Result-cases
        (WorkOrder.create (submission (record a { order_id = none }) order_id number) none env)) [
          | inr (x, f) ↦ absurd (
              let bad = sym ((first_refused a order_id) env t number x numbers f) ∙ h in
              ground arith)
          | inl (c, f) ↦
              let ran = sym ((first-alone a order_id) env t number c numbers f) ∙ h in
              elim (Result-cases (checks ((saving a order_id) c) u)) [
                | inr (x, k) ↦ absurd (let bad = (rw k at ran) in ground arith)
                | inl (v, k) ↦
                    let done = (rw k at ran) in
                    let order : (record c { events = [] }) ≡ o = ground arith in
                    let store : written ((saving a order_id) c) u ≡ s' = ground arith in
                    rw (← order, ← store)
                      (record {
                        stored = saved_stored u c ((created-IsMade a order_id) number env f);
                        of_it =
                            (IsMade-is_of a order_id) c ((created-IsMade a order_id) number env f)
                              same;
                        has_number =
                            rw (saved_number env number f)
                              ((created-named a order_id) number env f).1;
                        named = ((created-named a order_id) number env f).0;
                        fine = saved_fine u c k;
                      })
              ]
        ]

  by_first :
      (env env' : Ambient) (s : AsyncMemoryStore) (r : Result WorkOrder × AsyncMemoryStore)
      {o : WorkOrder} {s' : AsyncMemoryStore}
      → same_details a.details a.details ≡ true
      → alone ((first a order_id) env) s ≡ r
      → caught ((second a order_id) env') r ≡ (ok o, s')
      → IsSettled o s'
  by_first env env' s (ok x, u) same q h = first_lem env s same (q ∙ h)
  by_first env env' s (err (concurrency_conflict c), u) same q h = second_lem env' u h
  by_first env env' s (err (value_error x), u) same q h = absurd (ground arith)
  by_first env env' s (err (invalid_transition x), u) same q h = absurd (ground arith)
  by_first env env' s (err (evidence_missing x), u) same q h = absurd (ground arith)
  by_first env env' s (err not_found, u) same q h = absurd (ground arith)
  by_first env env' s (err runtime_error, u) same q h = absurd (ground arith)

-- A submission that was answered with an order, sent again, is answered with the same order; the second
-- time it changes nothing in the store but the counter of its organization, which moves on by one. Its
-- details must equal themselves, as they do where no key stands twice.
pub create_order_once-repeat :
    (a : OrderRequest) (order_id : String) (env env' again_env again_env' : Ambient)
    (s : AsyncMemoryStore) {o : WorkOrder} {s' : AsyncMemoryStore}
    → same_details a.details a.details ≡ true
    → alone (AsyncService.create_order_once async_memory a order_id env env') s ≡ (ok o, s')
    → alone (AsyncService.create_order_once async_memory a order_id again_env again_env') s'
      ≡ (ok o, numbered a.organization_id s')
unfolding AsyncService.create_order_once
create_order_once-repeat a order_id env env' again_env again_env' s {o} {s'} same h =
    let settled =
      by_first a order_id env env' s (alone (first a order_id env) s) same refl
        (sym (alone-recover (first a order_id env) (second a order_id env') s) ∙ h) in
    again a order_id again_env again_env' s' o settled.stored settled.of_it settled.has_number
      settled.named settled.fine
