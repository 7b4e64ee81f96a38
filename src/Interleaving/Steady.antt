-- ===== src/Interleaving/Steady.antt =====
-- Tasks whose every step lets the store grow, however it has grown meanwhile; and pools of such tasks
-- under every schedule.
use dispatch_core.Shared.{◌≡◌, List, [], ◌∷◌, All}
use dispatch_core.Domain.Errors.{ok, err}
use dispatch_core.Domain.Errors.Error.{
  value_error, invalid_transition, evidence_missing, concurrency_conflict, not_found, runtime_error,
}
use dispatch_core.Application.Task.{Task, finished, act, recover}
use dispatch_core.Infrastructure.AsyncMemory.{AsyncMemoryStore}
use dispatch_core.Interleaving.Growth.{
  IsFiled, Follows, Follows-refl, Follows-trans, Follows-IsFiled,
}

-- `Steady p s`: the task `p`, which last saw the store as `s`, lets the store grow at every step.
abbrev pub Steady : {A : Type 0} → Task AsyncMemoryStore A → AsyncMemoryStore → Type 0
Steady (finished r) s = Unit
Steady (act write next) s =
    (t : AsyncMemoryStore) → Follows s t → Follows t (write t) × Steady (next t) (write t)

-- A task that is steady stays so while it waits.
pub Steady-wait :
    {A : Type 0} (p : Task AsyncMemoryStore A) (s t : AsyncMemoryStore)
    → Follows s t
    → Steady p s
    → Steady p t
Steady-wait (finished q) s t g h = tt
Steady-wait (act write next) s t g h = λ u f. h u (Follows-trans s t u g f)

-- The handler of a conflict is to be steady wherever it starts.
pub recover-Steady :
    {A : Type 0} (p handler : Task AsyncMemoryStore A) (s : AsyncMemoryStore)
    → Steady p s
    → ((t : AsyncMemoryStore) → Follows s t → Steady handler t)
    → IsFiled s
    → Steady (recover p handler) s
recover-Steady (finished (ok a)) handler s h k filed = tt
recover-Steady (finished (err (concurrency_conflict c))) handler s h k filed =
    k s (Follows-refl s filed)
recover-Steady (finished (err (value_error x))) handler s h k filed = tt
recover-Steady (finished (err (invalid_transition x))) handler s h k filed = tt
recover-Steady (finished (err (evidence_missing x))) handler s h k filed = tt
recover-Steady (finished (err not_found)) handler s h k filed = tt
recover-Steady (finished (err runtime_error)) handler s h k filed = tt
recover-Steady (act write next) handler s h k filed = λ t g.
    let (step, rest) = h t g in
    (
      step,
      recover-Steady (next t) handler (write t) rest
          (λ u f. k u (Follows-trans s t u g (Follows-trans t (write t) u step f)))
          (Follows-IsFiled t (write t) step),
    )

-- One task of a pool takes its next step.
pub data Turn {A : Type 0} (s s' : AsyncMemoryStore)
    : List (Task AsyncMemoryStore A) → List (Task AsyncMemoryStore A) → Type 0 where
  first :
      {write : AsyncMemoryStore → AsyncMemoryStore}
      {next : AsyncMemoryStore → Task AsyncMemoryStore A} {p : Task AsyncMemoryStore A}
      {ps : List (Task AsyncMemoryStore A)}
      → s' ≡ write s
      → p ≡ next s
      → Turn s s' (act write next ∷ ps) (p ∷ ps)
  later :
      {p : Task AsyncMemoryStore A} {ps qs : List (Task AsyncMemoryStore A)}
      → Turn s s' ps qs
      → Turn s s' (p ∷ ps) (p ∷ qs)

-- A schedule: any number of turns, each of any task.
pub data Schedule {A : Type 0}
    : List (Task AsyncMemoryStore A)
      → AsyncMemoryStore
      → List (Task AsyncMemoryStore A)
      → AsyncMemoryStore
      → Type 0 where
  stop : {ps : List (Task AsyncMemoryStore A)} {s : AsyncMemoryStore} → Schedule ps s ps s
  turn :
      {ps qs rs : List (Task AsyncMemoryStore A)} {s t u : AsyncMemoryStore}
      → Turn s t ps qs
      → Schedule qs t rs u
      → Schedule ps s rs u

All-Steady-wait :
    {A : Type 0} (ps : List (Task AsyncMemoryStore A)) (s t : AsyncMemoryStore)
    → Follows s t
    → All (λ p. Steady p s) ps
    → All (λ p. Steady p t) ps
All-Steady-wait [] s t g h = tt
All-Steady-wait (p ∷ ps) s t g h = (Steady-wait p s t g h.0, All-Steady-wait ps s t g h.1)

Turn-Steady :
    {A : Type 0} {s t : AsyncMemoryStore} {ps qs : List (Task AsyncMemoryStore A)}
    → IsFiled s
    → All (λ p. Steady p s) ps
    → Turn s t ps qs
    → Follows s t × All (λ p. Steady p t) qs
Turn-Steady {s} {t} filed h (first {write} {next} {p} {ps} e f) =
    let (step, rest) = h.0 s (Follows-refl s filed) in
    let moved : Follows s t = rw e step in
    (moved, (rw (e, f) rest, All-Steady-wait ps s t moved h.1))
Turn-Steady {s} {t} filed h (later {p} {ps} {qs} m) =
    let (step, rest) = Turn-Steady filed h.1 m in (step, (Steady-wait p s t step h.0, rest))

-- Under every schedule of steady tasks the store grows.
pub Schedule-Follows :
    {A : Type 0} {ps qs : List (Task AsyncMemoryStore A)} {s t : AsyncMemoryStore}
    → IsFiled s
    → All (λ p. Steady p s) ps
    → Schedule ps s qs t
    → Follows s t
Schedule-Follows {s} filed h stop = Follows-refl s filed
Schedule-Follows {s} {t} filed h (turn {t = m} move rest) =
    let (step, still) = Turn-Steady filed h move in
    Follows-trans s m t step (Schedule-Follows (Follows-IsFiled s m step) still rest)
