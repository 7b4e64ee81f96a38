-- ===== src/Interleaving/Alone.antt =====
-- Tasks that run alone: the handler of a conflict, a unit that stages nothing, and the next number.
use dispatch_core.Shared.{
  ◌≡◌, refl, ap, ◌∙◌, true, String, string_eq, pair_eq, Option, none, some, [], arith, append-nil,
  is_some_of_iff,
}
use dispatch_core.Shared.Dict.{values}
use dispatch_core.Domain.Errors.{Error, Result, ok, err, concurrency_conflict}
use dispatch_core.Domain.Errors.Error.{
  value_error, invalid_transition, evidence_missing, not_found, runtime_error,
}
use dispatch_core.Domain.OrderNumbers.{format_order_number}
use dispatch_core.Domain.OrderNumbers.Unique.{read-format_order_number}
use dispatch_core.Domain.WorkOrder.{WorkOrder, EvidenceRequirements, no_evidence}
use dispatch_core.Application.AsyncService.{same_option, same_evidence}
use dispatch_core.Application.Task.{Task, finished, act, alone, recover}
use dispatch_core.Infrastructure.AsyncMemory.{
  AsyncMemoryStore, next_sequence, check_capacity, check_versions, check_executor_capacity, written,
  write_if, checks, begin, AsyncMemoryUnitOfWork,
}
use dispatch_core.Interleaving.Uninterrupted.{answered}
use dispatch_core.Infrastructure.Memory.{check_collection_versions, write_all}

-- A task with a handler, run alone.
abbrev pub caught :
    {A : Type 0}
    → Task AsyncMemoryStore A
    → Result A × AsyncMemoryStore
    → Result A × AsyncMemoryStore
caught handler (err (concurrency_conflict c), s) = alone handler s
caught handler (r, s) = (r, s)

pub alone-recover :
    {A : Type 0} (p handler : Task AsyncMemoryStore A) (s : AsyncMemoryStore)
    → alone (recover p handler) s ≡ caught handler (alone p s)
unfolding alone
alone-recover (finished (ok a)) handler s = refl
alone-recover (finished (err (concurrency_conflict c))) handler s = refl
alone-recover (finished (err (value_error x))) handler s = refl
alone-recover (finished (err (invalid_transition x))) handler s = refl
alone-recover (finished (err (evidence_missing x))) handler s = refl
alone-recover (finished (err not_found)) handler s = refl
alone-recover (finished (err runtime_error)) handler s = refl
alone-recover (act write next) handler s = alone-recover (next s) handler (write s)

abbrev pub given_evidence : Option EvidenceRequirements → EvidenceRequirements
given_evidence none = no_evidence
given_evidence (some e) = e

pub same_option_refl : (o : Option String) → same_option o o ≡ true
same_option_refl none = refl
same_option_refl (some s) = ground (arith, is_some_of_iff (some s) s)

pub same_evidence_refl : (e : EvidenceRequirements) → same_evidence e e ≡ true
same_evidence_refl e = ground arith

-- A commit that meets a conflict leaves the store.
pub conflicted :
    (k : Result (Unit {0})) (o : WorkOrder) (w : AsyncMemoryUnitOfWork) (u : AsyncMemoryStore)
    {r : Result WorkOrder × AsyncMemoryStore} {e : Error}
    → r ≡ (answered k o, write_if k w u)
    → k ≡ err e
    → r ≡ (err e, u)
conflicted k o w u h q = h ∙ ap (λ c. (answered c o, write_if c w u)) q

-- A unit that staged nothing writes nothing.
pub written_nothing : (t : AsyncMemoryStore) → written begin t ≡ t
unfolding written write_all
written_nothing t = rw (append-nil t.outbox_events) refl

pub begin_fine :
    (t : AsyncMemoryStore) → check_capacity [] (values t.orders) ≡ ok tt → checks begin t ≡ ok tt
unfolding check_versions check_executor_capacity check_collection_versions write_all
begin_fine t h = rw h refl

pub fine_begin :
    (t : AsyncMemoryStore) → checks begin t ≡ ok tt → check_capacity [] (values t.orders) ≡ ok tt
unfolding check_versions check_executor_capacity check_collection_versions write_all
fine_begin t h = h

-- After the counter has moved there is a number.
pub next_number :
    (org : String) (t : AsyncMemoryStore)
    → (number : String) × (format_order_number (next_sequence org t) ≡ ok number)
next_number org t =
    let (number, made, read) = read-format_order_number (next_sequence org t) (omega arith) in
    (number, made)
