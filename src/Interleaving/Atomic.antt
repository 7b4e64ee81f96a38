-- ===== src/Interleaving/Atomic.antt =====
-- An order that is changed while others are at work is changed as if nobody were.
use dispatch_core.Shared.{
  ◌≡◌, ◌++◌, ◌⊎◌, ◌<◌, inl, inr, refl, ap, ◌∙◌, sym, String, pair_eq, none, some, List, [], ◌∷◌,
  Option-cases,
}
use dispatch_core.Shared.Dict.{get, put}
use dispatch_core.Domain.Errors.{
  Error, Result, ok, err, Result-cases, concurrency_conflict, Conflict,
}
use dispatch_core.Domain.Events.{Ambient}
use dispatch_core.Domain.WorkOrder.{WorkOrder, Command, apply}
use dispatch_core.Application.AsyncService
use dispatch_core.Application.Task.{alone}
use dispatch_core.Infrastructure.AsyncMemory.{
  Key, write_if, AsyncMemoryStore, async_memory, get_order, save_order, add_events, commit, checks,
  written,
}
use dispatch_core.Infrastructure.Memory.{write_all}
use dispatch_core.Interleaving.Uninterrupted.{
  answered, Runs_ends, saving, checks_stale, filed_at, program, alone_missing, alone_refused,
  alone_saved,
}
use dispatch_core.Interleaving.Trace.{
  Moment, Runs, Idle, Effect, IsOvertaken, Runs-finished, Runs-act,
}
use dispatch_core.Interleaving.Fitting.{Moves, apply-Moves}

-- What an answer tells: with an order, that it is the changed order that was there, that it is stored in
-- its place, and that its events are in the outbox; with an error, that the store is the same.
abbrev pub Told :
    String
    → String
    → (WorkOrder → Result WorkOrder)
    → AsyncMemoryStore
    → AsyncMemoryStore
    → Result WorkOrder
    → Type 0
Told organization_id order_id change before then_after (ok o) =
    (old : WorkOrder) × (new : WorkOrder) × (get before.orders (organization_id, order_id)
      ≡ some old)
    × (change old ≡ ok new)
    × (o ≡ record new { events = [] })
    × (then_after ≡ record before {
      orders = put before.orders (organization_id, order_id) o;
      outbox_events = before.outbox_events ++ new.events;
    })
Told organization_id order_id change before then_after (err e) = then_after ≡ before

-- The call took the steps `ms`. All that it did, it did in one of them, where it met the store
-- `before` and left `then_after`; and uninterrupted from `before` it has the same outcome `r` and leaves
-- the same store.
pub record IsAtomic (organization_id order_id : String) (change : WorkOrder → Result WorkOrder)
    (ms : List Moment) (r : Result WorkOrder) : Type 0 where
  pub before : AsyncMemoryStore
  pub then_after : AsyncMemoryStore
  pub effect : Effect before then_after ms
  pub outcome :
      alone (AsyncService.change_order async_memory organization_id order_id change) before
      ≡ (r, then_after)
  pub told : Told organization_id order_id change before then_after r

-- The call did nothing, and the order got a higher version after the call had read it.
pub record IsRefused (organization_id order_id : String) (ms : List Moment) (r : Result WorkOrder)
    : Type 0 where
  pub conflict : r ≡ err (concurrency_conflict Conflict.stale_version)
  pub idle : Idle ms
  pub overtaken : IsOvertaken (organization_id, order_id) ms

-- A run of one step that changes nothing.
read_only :
    (organization_id order_id : String) (change : WorkOrder → Result WorkOrder)
    (t : AsyncMemoryStore) (ms : List Moment) (x : Error) (r : Result WorkOrder)
    → alone (program organization_id order_id change t) t ≡ (err x, t)
    → ms ≡ (t, t) ∷ []
    → err x ≡ r
    → IsAtomic organization_id order_id change ms r
read_only organization_id order_id change t ms x r outcome moments e = rw (← e) (record {
  before = t;
  then_after = t;
  effect = rw moments (inl (refl, refl, tt));
  outcome = outcome;
  told = refl;
})

-- A run of two steps, the first of which changes nothing.
second_step :
    (organization_id order_id : String) (change : WorkOrder → Result WorkOrder)
    (t u left : AsyncMemoryStore) (ms : List Moment) (q r : Result WorkOrder)
    → ms ≡ (t, t) ∷ (u, left) ∷ []
    → alone (program organization_id order_id change u) u ≡ (q, left)
    → Told organization_id order_id change u left q
    → q ≡ r
    → IsAtomic organization_id order_id change ms r
second_step organization_id order_id change t u left ms q r moments outcome told e =
    rw (← e) (record {
      before = u;
      then_after = left;
      effect = rw moments (inr (refl, inl (refl, refl, tt)));
      outcome = outcome;
      told = told;
    })

Told-saved :
    (organization_id order_id : String) (change : WorkOrder → Result WorkOrder)
    (u : AsyncMemoryStore) (o o' : WorkOrder) (c : Result (Unit {0}))
    → get u.orders (organization_id, order_id) ≡ some o
    → change o ≡ ok o'
    → ◌≡◌ {A = Key} (o'.organization_id, o'.id) (organization_id, order_id)
    → Told organization_id order_id change u
        (write_if c (saving o o') u)
        (answered c (record o' { events = [] }))
unfolding written write_all
Told-saved organization_id order_id change u o o' (err x) found f key = refl
Told-saved organization_id order_id change u o o' (ok x) found f key = (
  o,
  o',
  found,
  f,
  refl,
  ap
      (λ k. record u {
        orders = put u.orders k (record o' { events = [] });
        outbox_events = u.outbox_events ++ o'.events;
      })
      key,
)

refused :
    (organization_id order_id : String) (t u left : AsyncMemoryStore) (ms : List Moment)
    (r : Result WorkOrder)
    → ms ≡ (t, t) ∷ (u, left) ∷ []
    → r ≡ err (concurrency_conflict Conflict.stale_version)
    → left ≡ u
    → (o b : WorkOrder) → get t.orders (organization_id, order_id) ≡ some o
    → get u.orders (organization_id, order_id) ≡ some b
    → o.version < b.version
    → IsRefused organization_id order_id ms r
refused organization_id order_id t u left ms r moments conflict same o b first second more =
    record {
      conflict = conflict;
      idle = rw moments (refl, (same, tt));
      overtaken = rw moments (inl (o, first, inl (b, second, more)));
    }

module _ (organization_id order_id : String) (change : WorkOrder → Result WorkOrder)
    (moves : Moves change) (s : AsyncMemoryStore) (ms : List Moment) (r : Result WorkOrder)
    (s' : AsyncMemoryStore) where
  change_order-Atomic :
      Runs (AsyncService.change_order async_memory organization_id order_id change) s ms r s'
      → IsAtomic organization_id order_id change ms r ⊎ IsRefused organization_id order_id ms r
  unfolding AsyncService.change_order get_order save_order add_events commit put
  change_order-Atomic run =
      let reading = Runs-act _ _ s ms r s' run in
      let t = reading.met in
      elim (Option-cases (get t.orders (organization_id, order_id))) [
        | inl e ↦
            let (none_left, q, l) = Runs-finished _ t reading.later r s' (rw e at reading.rest) in
            inl (
              read_only organization_id order_id change t ms _ r
                (alone_missing organization_id order_id change t e)
                (reading.moments ∙ ap (◌∷◌ (t, t)) none_left) q)
        | inr (o, e) ↦ elim (Result-cases (change o)) [
          | inr (x, f) ↦
              let (none_left, q, l) =
                Runs-finished _ t reading.later r s' (rw (e, f) at reading.rest) in
              inl (
                read_only organization_id order_id change t ms _ r
                  (alone_refused organization_id order_id change t o x e f)
                  (reading.moments ∙ ap (◌∷◌ (t, t)) none_left) q)
          | inl (o', f) ↦
              let committing = Runs-act _ _ t reading.later r s' (rw (e, f) at reading.rest) in
              let u = committing.met in
              let left = write_if (checks (saving o o') u) (saving o o') u in
              let (none_left, q, l) =
                Runs_ends (checks (saving o o') u) (record o' { events = [] }) left committing.later
                  r s' committing.rest in
              let moments : ms ≡ (t, t) ∷ (u, left) ∷ [] =
                reading.moments
                ∙ ap (◌∷◌ (t, t)) (committing.moments ∙ ap (◌∷◌ (u, left)) none_left) in
              let (b, found, later) =
                committing.grown.orders.kept (organization_id, order_id) o e in
              let (m, id, org) = moves o o' f in
              let (here, empty) = reading.grown.orders.filed.all (organization_id, order_id) o e in
              let key = filed_at organization_id order_id o o' id org here in
              elim later [
                | inl same ↦
                    let there : get u.orders (organization_id, order_id) ≡ some o =
                      (rw same at found) in
                    inl (
                      second_step organization_id order_id change t u left ms
                        (answered (checks (saving o o') u) (record o' { events = [] })) r moments
                        (alone_saved organization_id order_id change u o o' there f)
                        (Told-saved organization_id order_id change u o o' (checks (saving o o') u)
                          there f key)
                        q)
                | inr more ↦
                    let stale = checks_stale o o' b u (rw key found) more in
                    inr (
                      refused organization_id order_id t u left ms r moments
                        (sym q ∙ ap (λ c. answered c (record o' { events = [] })) stale)
                        (ap (λ c. write_if c (saving o o') u) stale) o b e found more)
              ]
        ]
      ]

-- A command on an order, interleaved with whatever lets the store grow, does all that it does in one of
-- its steps, and has the outcome, errors included, that it has when it starts at the store that this step
-- met and nothing interrupts it: an order that it answers is the one that this step met, changed, and the
-- step put it in its place and its events into the outbox; after an error nothing has changed. Or it does
-- nothing and ends with the conflict of a stale version, in which case the version of the order has risen
-- between two of its steps.
pub command-Atomic :
    (organization_id order_id : String) (c : Command) (env : Ambient) (s : AsyncMemoryStore)
    (ms : List Moment) (r : Result WorkOrder) (s' : AsyncMemoryStore)
    → Runs
        (AsyncService.change_order async_memory organization_id order_id (apply c none env))
        s
        ms
        r
        s'
    → IsAtomic organization_id order_id (apply c none env) ms r
      ⊎ IsRefused organization_id order_id ms r
command-Atomic organization_id order_id c env s ms r s' run =
    change_order-Atomic organization_id order_id (apply c none env) (apply-Moves c env) s ms r s'
      run
