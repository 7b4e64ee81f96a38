-- ===== src/Interleaving/Trace.antt =====
-- The run of one task among others, with the stores before and after each of its steps.
use dispatch_core.Shared.{ℕ, ◌<◌, ◌≡◌, refl, ◌⊎◌, some, List, [], ◌∷◌, pair_eq}
use dispatch_core.Shared.Dict.{get}
use dispatch_core.Domain.Errors.{Result}
use dispatch_core.Domain.WorkOrder.{WorkOrder}
use dispatch_core.Application.Task.{Task, finished, act}
use dispatch_core.Infrastructure.AsyncMemory.{Key, AsyncMemoryStore}
use dispatch_core.Interleaving.Growth.{Follows}

-- The store that a step met and the store that it left.
abbrev pub Moment : Type 0
Moment = AsyncMemoryStore × AsyncMemoryStore

-- `Runs p s ms r s'`: the task `p`, started at `s`, may take the steps `ms` and return `r` when the
-- store is `s'`; others let the store grow before each step, and after the last.
abbrev pub Runs :
    {A : Type 0}
    → Task AsyncMemoryStore A
    → AsyncMemoryStore
    → List Moment
    → Result A
    → AsyncMemoryStore
    → Type 0
Runs (finished q) s [] r s' = (q ≡ r) × Follows s s'
Runs (finished q) s (m ∷ ms) r s' = ⊥
Runs (act write next) s [] r s' = ⊥
Runs (act write next) s ((t, t') ∷ ms) r s' =
    Follows s t × (t' ≡ write t) × Runs (next t) t' ms r s'

-- No step changes the store.
abbrev pub Idle : List Moment → Type 0
Idle [] = Unit
Idle ((t, t') ∷ ms) = (t' ≡ t) × Idle ms

-- One of the steps takes the store from `before` to `then_after`, and no other changes it.
abbrev pub Effect : AsyncMemoryStore → AsyncMemoryStore → List Moment → Type 0
Effect before then_after [] = ⊥
Effect before then_after ((t, t') ∷ ms) =
    ((t ≡ before) × (t' ≡ then_after) × Idle ms) ⊎ ((t' ≡ t) × Effect before then_after ms)

-- A step meets the order of the key at a version above `n`.
abbrev pub MeetsAbove : Key → ℕ → List Moment → Type 0
MeetsAbove key n [] = ⊥
MeetsAbove key n ((t, t') ∷ ms) =
    ((o : WorkOrder) × (get t.orders key ≡ some o) × (n < o.version)) ⊎ MeetsAbove key n ms

-- A step meets the order of the key, and a later one meets it at a higher version.
abbrev pub IsOvertaken : Key → List Moment → Type 0
IsOvertaken key [] = ⊥
IsOvertaken key ((t, t') ∷ ms) =
    ((o : WorkOrder) × (get t.orders key ≡ some o) × MeetsAbove key o.version ms)
    ⊎ IsOvertaken key ms

module _ {A : Type 0} where
  pub Runs-finished :
      (q : Result A) (s : AsyncMemoryStore) (ms : List Moment) (r : Result A)
      (s' : AsyncMemoryStore)
      → Runs (finished q) s ms r s'
      → (ms ≡ []) × (q ≡ r) × Follows s s'
  Runs-finished q s [] r s' h = (refl, h.0, h.1)
  Runs-finished q s (m ∷ ms) r s' h = absurd h

  -- The first step of a run.
  pub record FirstStep (write : AsyncMemoryStore → AsyncMemoryStore)
      (next : AsyncMemoryStore → Task AsyncMemoryStore A) (s : AsyncMemoryStore) (ms : List Moment)
      (r : Result A) (s' : AsyncMemoryStore) : Type 0 where
    pub met : AsyncMemoryStore
    pub later : List Moment
    pub moments : ms ≡ (met, write met) ∷ later
    pub grown : Follows s met
    pub rest : Runs (next met) (write met) later r s'

  pub Runs-act :
      (write : AsyncMemoryStore → AsyncMemoryStore)
      (next : AsyncMemoryStore → Task AsyncMemoryStore A) (s : AsyncMemoryStore) (ms : List Moment)
      (r : Result A) (s' : AsyncMemoryStore)
      → Runs (act write next) s ms r s'
      → FirstStep write next s ms r s'
  Runs-act write next s [] r s' h = absurd h
  Runs-act write next s ((t, t') ∷ ms) r s' (g, e, run) = record {
    met = t;
    later = ms;
    moments = rw e refl;
    grown = g;
    rest = rw e at run;
  }
