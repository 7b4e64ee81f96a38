-- ===== src/Interleaving/Submissions.antt =====
-- The two units of `create_order_once`, each run alone, and which stored orders are of a request.
use dispatch_core.Shared.{
  ◌≡◌, refl, ap, ◌∙◌, inl, inr, Bool, true, false, not, ◌&&◌, ◌||◌, String, is_empty, ◌==◌,
  string_eq, pair_eq, none, some, [], ◌∷◌, arith, eq_iff,
}
use dispatch_core.Shared.Dict.{get, put, values}
use dispatch_core.Domain.Errors.{Error, ok, err, Result-cases, concurrency_conflict, Conflict}
use dispatch_core.Domain.Events.{Ambient}
use dispatch_core.Domain.Events.Equality.{same_details}
use dispatch_core.Domain.OrderNumbers.{format_order_number}
use dispatch_core.Domain.OrderNumbers.Unique.{format-nonempty}
use dispatch_core.Domain.WorkOrder
use dispatch_core.Domain.WorkOrder.{WorkOrder, EvidenceRequirements, no_evidence}
use dispatch_core.Application.AsyncService
use dispatch_core.Application.AsyncService.{same_submission, same_option, same_evidence}
use dispatch_core.Application.Service.{OrderRequest, submission}
use dispatch_core.Application.Task.{Task, alone}
use dispatch_core.Infrastructure.AsyncMemory.{
  AsyncMemoryStore, async_memory, get_order, save_order, add_events, commit, allocate_public_number,
  numbered, next_sequence, check_capacity, check_versions, write_if, checks, begin,
  AsyncMemoryUnitOfWork,
}
use dispatch_core.Interleaving.Fitting.{unit_of}
use dispatch_core.Interleaving.Uninterrupted.{answered, alone_ends}
use dispatch_core.Infrastructure.Memory.{check_collection_versions}
use dispatch_core.Interleaving.Alone.{
  caught, alone-recover, given_evidence, same_option_refl, same_evidence_refl, conflicted,
  written_nothing, begin_fine, next_number,
}

module _ (a : OrderRequest) (order_id : String) where
  -- Whether a stored order is of this request.
  abbrev pub is_of : WorkOrder → Bool
  is_of o =
      (o.id == order_id)
      && ((o.organization_id == a.organization_id)
          && ((o.work_type == a.work_type)
              && ((o.source == a.source)
                  && (same_option o.requester_id a.requester_id
                      && (same_details o.details a.details
                          && same_evidence o.evidence_requirements
                              (given_evidence a.evidence_requirements))))))

  -- Whether the request names what an order must have.
  abbrev pub is_named : Bool
  is_named = not (is_empty order_id || is_empty a.organization_id || is_empty a.work_type)

  pub created :
      (number : String) (env : Ambient)
      → is_empty number ≡ false
      → is_named ≡ true
      → (c : WorkOrder) × (WorkOrder.create
            (submission (record a { order_id = none }) order_id number)
            none
            env
          ≡ ok c)
  unfolding WorkOrder.create
  created number env n named =
      elim (Result-cases
        (WorkOrder.create (submission (record a { order_id = none }) order_id number) none env)) [
          | inl (c, e) ↦ (c, e)
          | inr (x, e) ↦ absurd (ground arith)
        ]

  pub created-named :
      (number : String) (env : Ambient) {c : WorkOrder}
      → WorkOrder.create (submission (record a { order_id = none }) order_id number) none env ≡ ok c
      → (is_named ≡ true) × (is_empty number ≡ false)
  unfolding WorkOrder.create
  created-named number env e = ground arith

  -- What the request gives an order.
  pub record IsMade (c : WorkOrder) : Type 0 where
    pub id : c.id ≡ order_id
    pub organization_id : c.organization_id ≡ a.organization_id
    pub work_type : c.work_type ≡ a.work_type
    pub source : c.source ≡ a.source
    pub requester_id : c.requester_id ≡ a.requester_id
    pub details : c.details ≡ a.details
    pub evidence : c.evidence_requirements ≡ given_evidence a.evidence_requirements

  pub created-IsMade :
      (number : String) (env : Ambient) {c : WorkOrder}
      → WorkOrder.create (submission (record a { order_id = none }) order_id number) none env ≡ ok c
      → IsMade c
  unfolding WorkOrder.create
  created-IsMade number env e = record {
    id = ground arith;
    organization_id = ground arith;
    work_type = ground arith;
    source = ground arith;
    requester_id = ground arith;
    details = ground arith;
    evidence = ground arith;
  }

  pub same_submission-eq-is_of : (o c : WorkOrder) → IsMade c → same_submission o c ≡ is_of o
  unfolding same_submission
  same_submission-eq-is_of o c m =
      rw (m.id, m.organization_id, m.work_type, m.source, m.requester_id, m.details, m.evidence)
        refl

  -- An order that this request made is of it.
  pub IsMade-is_of :
      (c : WorkOrder) → IsMade c → same_details a.details a.details ≡ true → is_of c ≡ true
  IsMade-is_of c m h =
      rw (m.id, m.organization_id, m.work_type, m.source, m.requester_id, m.details, m.evidence)
        (ground (
          arith,
          eq_iff order_id order_id,
          eq_iff a.organization_id a.organization_id,
          eq_iff a.work_type a.work_type,
          eq_iff a.source a.source,
          same_option_refl a.requester_id,
          same_evidence_refl (given_evidence a.evidence_requirements),
        ))

  abbrev pub first : Ambient → Task AsyncMemoryStore WorkOrder
  first env = AsyncService.create_new_order async_memory (record a { order_id = none }) order_id env

  abbrev pub second : Ambient → Task AsyncMemoryStore WorkOrder
  second env = AsyncService.existing_order async_memory (record a { order_id = none }) order_id env

  -- The unit that saves a new order.
  abbrev pub saving : WorkOrder → AsyncMemoryUnitOfWork
  saving c =
      unit_of
        ((
          (c.organization_id, c.id),
          record { snapshot = record c { events = [] }; expected_version = none },
        )
          ∷ [])
        [] c.events

  -- What the first unit does alone, once the order is made.
  pub first-alone :
      (env : Ambient) (t : AsyncMemoryStore) (number : String) (c : WorkOrder)
      → format_order_number (next_sequence a.organization_id t) ≡ ok number
      → WorkOrder.create (submission (record a { order_id = none }) order_id number) none env ≡ ok c
      → let u = numbered a.organization_id t in
        alone (first env) t ≡ (
          answered (checks (saving c) u) (record c { events = [] }),
          write_if (checks (saving c) u) (saving c) u,
        )
  unfolding AsyncService.create_new_order allocate_public_number save_order add_events commit put
      alone
  first-alone env t number c e f =
      rw (e, f, alone)
        (alone_ends (checks (saving c) (numbered a.organization_id t)) (record c { events = [] }) _)

  pub first_refused :
      (env : Ambient) (t : AsyncMemoryStore) (number : String) (x : Error)
      → format_order_number (next_sequence a.organization_id t) ≡ ok number
      → WorkOrder.create (submission (record a { order_id = none }) order_id number) none env
        ≡ err x
      → alone (first env) t ≡ (err x, numbered a.organization_id t)
  unfolding AsyncService.create_new_order allocate_public_number save_order add_events commit put
      alone
  first_refused env t number x e f = rw (e, f, alone)

  -- And where the order is stored.
  pub first_conflict :
      (t : AsyncMemoryStore) (b c : WorkOrder)
      → get t.orders (c.organization_id, c.id) ≡ some b
      → checks (saving c) (numbered a.organization_id t)
        ≡ err (concurrency_conflict Conflict.already_exists)
  unfolding check_versions check_collection_versions
  first_conflict t b c e = rw e refl

  -- What the second unit does alone.
  pub alone-second :
      (env : Ambient) (t : AsyncMemoryStore) (b c : WorkOrder)
      → get t.orders (a.organization_id, order_id) ≡ some b
      → WorkOrder.create
          (submission (record a { order_id = none }) order_id b.public_number)
          none
          env
        ≡ ok c
      → same_submission b c ≡ true
      → checks begin t ≡ ok tt
      → alone (second env) t ≡ (ok b, t)
  unfolding AsyncService.existing_order get_order commit alone
  alone-second env t b c e f same fine =
      rw (e, f, same, alone, fine) (ap (λ x. (ok b, x)) (written_nothing t))

  pub found_made :
      (t : AsyncMemoryStore) (b d : WorkOrder)
      → IsMade d
      → get t.orders (a.organization_id, order_id) ≡ some b
      → get t.orders (d.organization_id, d.id) ≡ some b
  found_made t b d m e = rw (m.organization_id, m.id) e

  -- A request whose order is stored, in a store that passes the check of capacity, gets this order.
  pub again :
      (env env' : Ambient) (t : AsyncMemoryStore) (b : WorkOrder)
      → get t.orders (a.organization_id, order_id) ≡ some b
      → is_of b ≡ true
      → is_empty b.public_number ≡ false
      → is_named ≡ true
      → check_capacity [] (values t.orders) ≡ ok tt
      → alone (AsyncService.create_order_once async_memory a order_id env env') t
        ≡ (ok b, numbered a.organization_id t)
  unfolding AsyncService.create_order_once
  again env env' t b stored of_it has_number named fine =
      let u : AsyncMemoryStore = numbered a.organization_id t in
      let (number, numbers) = next_number a.organization_id t in
      let (d, made) =
        created number env (format-nonempty (next_sequence a.organization_id t) numbers) named in
      let (c, made') = created b.public_number env' has_number named in
      let dm = created-IsMade number env made in
      let same : same_submission b c ≡ true =
        same_submission-eq-is_of b c (created-IsMade b.public_number env' made') ∙ of_it in
      let clash = first_conflict t b d (found_made t b d dm stored) in
      let ran : alone (first env) t ≡ (err (concurrency_conflict Conflict.already_exists), u) =
        conflicted (checks (saving d) u) (record d { events = [] }) (saving d) u
          (first-alone env t number d numbers made) clash in
      alone-recover (first env) (second env') t
      ∙ ap (caught (second env')) ran
      ∙ alone-second env' u b c stored made' same (begin_fine u fine)
