-- ===== src/Shared/Dict.antt =====
-- A Python dict: an association list in insertion order, written in place on a known key.
use mathlib.Core.Path.{◌≡◌, refl}
use mathlib.Core.Logic.{◌≢◌, ◌⊎◌, inl, inr}
use mathlib.Core.Option.{Option, none, some}
use mathlib.Core.List.{List, [], ◌∷◌, map}
use native.Mathlib.Omega.{arith}
use dispatch_core.Shared.Tests.{if◌then◌else◌, Bool-cases}
use dispatch_core.Shared.Keys.{HasEq, ◌==◌}

abbrev pub Dict : Type 0 → Type 0 → Type 0
Dict K V = List (K × V)

module _ {K V : Type 0} ⦃e : HasEq K⦄ where
  -- `d.get(k)`
  unfoldable pub get : Dict K V → K → Option V
  get [] k = none
  get ((j, v) ∷ d) k = if j == k then some v else get d k

  -- `d[k] = v`
  unfoldable pub put : Dict K V → K → V → Dict K V
  put [] k v = (k, v) ∷ []
  put ((j, w) ∷ d) k v = if j == k then (j, v) ∷ d else (j, w) ∷ put d k v

  pub get-put :
      (d : Dict K V) (k j : K) (v : V) → get (put d k v) j ≡ (if k == j then some v else get d j)
  unfolding get put
  get-put [] k j v = refl
  get-put ((i, w) ∷ d) k j v =
      ground (arith, e.agrees k j, e.agrees i k, e.agrees i j, get-put d k j v)

  pub get-put_self : (d : Dict K V) (k : K) (v : V) → get (put d k v) k ≡ some v
  get-put_self d k v = ground (arith, get-put d k k v, e.agrees k k)

  pub get-put_ne : (d : Dict K V) (k j : K) (v : V) → k ≢ j → get (put d k v) j ≡ get d j
  get-put_ne d k j v h = ground (arith, get-put d k j v, e.agrees k j)

-- `d.values()`
abbrev pub values : {K V : Type 0} → Dict K V → List V
values = map (λ p. p.1)

module _ {K V : Type 0} ⦃e : HasEq K⦄ where
  -- No key stands twice, as in every dict.
  abbrev pub Distinct : Dict K V → Type 0
  Distinct [] = Unit
  Distinct ((k, v) ∷ d) = (get d k ≡ none) × Distinct d

  pub put-Distinct : (d : Dict K V) (k : K) (v : V) → Distinct d → Distinct (put d k v)
  unfolding get put
  put-Distinct [] k v h = (refl, tt)
  put-Distinct ((j, w) ∷ d) k v h =
      ground (arith, put-Distinct d k v h.1, get-put d k j v, e.agrees k j, e.agrees j k)

module _ {K V : Type 0} ⦃e : HasEq K⦄ where
  -- What is found after a write was written, or stood there.
  pub put_cases :
      (d : Dict K V) (k j : K) (v x : V)
      → get (put d k v) j ≡ some x
      → ((k ≡ j) × (x ≡ v)) ⊎ ((k ≢ j) × (get d j ≡ some x))
  put_cases d k j v x h = elim (Bool-cases (e.same k j)) [
    | inl t ↦ inl (ground (arith, e.agrees k j), ground (arith, get-put d k j v))
    | inr f ↦ inr (ground (arith, e.agrees k j), ground (arith, get-put d k j v))
  ]
