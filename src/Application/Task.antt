-- ===== src/Application/Task.antt =====
-- Coroutines that share a store: a task goes on in steps, each of which writes the store at once, and
-- other tasks may go on in between. An exception ends a task, and what was written stays written.
use dispatch_core.Shared.{Bool, true, false}
use dispatch_core.Domain.Errors.{Error, Result, ok, err, concurrency_conflict}

-- `act write next` writes the store `s` that it meets as `write s`, and goes on as `next s`.
pub data Task (S A : Type 0) : Type 0 where
  finished : Result A → Task S A
  act : (S → S) → (S → Task S A) → Task S A

-- A task of a unit of work, whose own state is `U`.
abbrev pub Async : Type 0 → Type 0 → Type 0 → Type 0
Async S U A = U → Task S (A × U)

abbrev pub after : {S U A B : Type 0} → Result (A × U) → (A → U → Task S B) → Task S B
after (ok (a, u)) f = f a u
after (err e) f = finished (err e)

abbrev pub continue : {S U A B : Type 0} → Task S (A × U) → (A → U → Task S B) → Task S B
continue (finished r) f = after r f
continue (act write next) f = act write (λ s. continue (next s) f)

infixl 5 ◌>>=◌ ◌>>◌
abbrev pub ◌>>=◌ : {S U A B : Type 0} → Async S U A → (A → Async S U B) → Async S U B
◌>>=◌ m f u = continue (m u) f

abbrev pub ◌>>◌ : {S U B : Type 0} → Async S U (Unit {0}) → Async S U B → Async S U B
m >> k = m >>= λ _. k

abbrev pub with_unit : {U A : Type 0} → Result A → U → Result (A × U)
with_unit (ok a) u = ok (a, u)
with_unit (err e) u = err e

module _ {S U A : Type 0} where
  abbrev pub pure : A → Async S U A
  pure a u = finished (ok (a, u))

  -- A call that touches neither the store nor the unit.
  abbrev pub lift : Result A → Async S U A
  lift r u = finished (with_unit r u)

  -- A reading of the store.
  abbrev pub reads : (S → Result A) → Async S U A
  reads f u = act (λ s. s) (λ s. finished (with_unit (f s) u))

abbrev pub raise_if : {S U : Type 0} → Bool → Error → Async S U (Unit {0})
raise_if true e u = finished (err e)
raise_if false e u = finished (ok (tt, u))

-- `try: task except ConcurrencyConflict: handler`
abbrev pub recover : {S A : Type 0} → Task S A → Task S A → Task S A
recover (finished (err (concurrency_conflict c))) handler = handler
recover (finished r) handler = finished r
recover (act write next) handler = act write (λ s. recover (next s) handler)

-- A task that nothing interrupts.
unfoldable pub alone : {S A : Type 0} → Task S A → S → Result A × S
alone (finished r) s = (r, s)
alone (act write next) s = alone (next s) (write s)
