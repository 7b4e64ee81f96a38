-- ===== src/Shared/Keys.antt =====
-- The keys of dictionaries: Boolean equality that decides equality.
use Prim.Native.String.{String}
use mathlib.Core.Path.{◌≡◌}
use mathlib.Core.Logic.{◌↔◌, ◌⊎◌, ◌≢◌, inl, inr}
use mathlib.Core.Bool.{Bool, true, ◌&&◌}
use mathlib.Core.Option.{Option, none, some}
use dispatch_core.Shared.Tests.{Bool-cases}
use native.Mathlib.Omega.{arith}
use text.Mathlib.Text.{◌==◌ as str_eq}
use text.Mathlib.TextEquality.{eq_iff}

pub record HasEq {ℓ} (K : Type ℓ) : Type ℓ where
  pub same : K → K → Bool
  pub agrees : (j k : K) → (same j k ≡ true) ↔ (j ≡ k)

infix 50 ◌==◌
abbrev pub ◌==◌ {ℓ} : {K : Type ℓ} ⦃e : HasEq K⦄ → K → K → Bool
◌==◌ ⦃e⦄ j k = e.same j k

instance abbrev pub string_eq : HasEq String
string_eq = record { same = str_eq; agrees = eq_iff }

abbrev pair_beq : String × String → String × String → Bool
pair_beq (a, b) (c, d) = str_eq a c && str_eq b d

pub pair_beq_iff : (p q : String × String) → (pair_beq p q ≡ true) ↔ (p ≡ q)
pair_beq_iff (a, b) (c, d) = ground (arith, eq_iff a c, eq_iff b d)

instance abbrev pub pair_eq : HasEq (String × String)
pair_eq = record { same = pair_beq; agrees = pair_beq_iff }

-- `self.x == y` for an optional text on the left
unfoldable pub is_some_of : Option String → String → Bool
is_some_of none s = Bool.false
is_some_of (some t) s = str_eq t s

pub is_some_of_iff : (o : Option String) (s : String) → (is_some_of o s ≡ true) ↔ (o ≡ some s)
unfolding is_some_of
is_some_of_iff none s = ground arith
is_some_of_iff (some t) s = ground (arith, eq_iff t s)

pub eq_cases {ℓ} : {A : Type ℓ} ⦃e : HasEq A⦄ (a b : A) → (a ≡ b) ⊎ (a ≢ b)
eq_cases ⦃e⦄ a b = elim (Bool-cases (e.same a b)) [
  | inl t ↦ inl ((e.agrees a b).0 t)
  | inr f ↦ inr (ground (arith, e.agrees a b))
]
