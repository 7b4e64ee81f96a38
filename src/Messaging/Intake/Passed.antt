-- ===== src/Messaging/Intake/Passed.antt =====
-- The fields that the flow has passed (src/dispatch_core/messaging/intake.py): each required one has a
-- value.
use dispatch_core.Shared.{
  ℕ, zero, suc, ◌+◌, true, ◌||◌, String, ◌==◌, string_eq, none, some, List, [], ◌∷◌, ◌≡◌, arith,
  All, drop, Bool-cases, inl, inr, pair_eq,
}
use dispatch_core.Shared.Dict.{Dict, put, get-put}
use dispatch_core.Packs.Data.{FieldDefinition}
use dispatch_core.Packs.Fields.{insert, sorted, comes_before}
use dispatch_core.Messaging.Intake.Data.{has}
use dispatch_core.Messaging.Intake.Steps.{get_elem?, filled_ahead}

pub has-put :
    {V : Type 0} (d : Dict String V) (k j : String) (v : V)
    → has (put d k v) j ≡ ((k == j) || has d j)
unfolding has
has-put d k j v = ground (arith, get-put d k j v)

-- A required field has a value.
abbrev pub Given : {V : Type 0} → Dict String V → FieldDefinition → Type 0
Given d f = f.required ≡ true → has d f.key ≡ true

pub Given-put :
    {V : Type 0} (d : Dict String V) (k : String) (v : V) (f : FieldDefinition)
    → Given d f
    → Given (put d k v) f
Given-put d k v f h r = ground (arith, h r, has-put d k f.key v)

-- The first `n` fields are given.
abbrev pub Passed : ℕ → List FieldDefinition → Dict String String → Type 0
Passed zero fs d = Unit
Passed (suc n) [] d = Unit
Passed (suc n) (f ∷ fs) d = Given d f × Passed n fs d

pub Passed-put :
    (n : ℕ) (fs : List FieldDefinition) (d : Dict String String) (k v : String)
    → Passed n fs d
    → Passed n fs (put d k v)
Passed-put zero fs d k v h = tt
Passed-put (suc n) [] d k v h = tt
Passed-put (suc n) (f ∷ fs) d k v h = (Given-put d k v f h.0, Passed-put n fs d k v h.1)

pub Passed-filled_ahead :
    (fs : List FieldDefinition) (d : Dict String String) → Passed (filled_ahead fs d) fs d
unfolding filled_ahead
Passed-filled_ahead [] d = tt
Passed-filled_ahead (f ∷ fs) d = elim (Bool-cases (has d f.key)) [
  | inl t ↦ rw t ((λ r. t), Passed-filled_ahead fs d)
  | inr t ↦ rw t tt
]

pub Passed-ahead :
    (n : ℕ) (fs : List FieldDefinition) (d : Dict String String)
    → Passed n fs d
    → Passed (n + filled_ahead (drop n fs) d) fs d
unfolding filled_ahead
Passed-ahead zero fs d h =
    let m = filled_ahead fs d in let e : 0 + m ≡ m = omega arith in rw e (Passed-filled_ahead fs d)
Passed-ahead (suc n) [] d h =
    let m = filled_ahead [] d in let e : suc n + m ≡ suc (n + m) = omega arith in rw e tt
Passed-ahead (suc n) (f ∷ fs) d h =
    let m = filled_ahead (drop n fs) d in
    let e : suc n + m ≡ suc (n + m) = omega arith in rw e (h.0, Passed-ahead n fs d h.1)

pub Passed-suc :
    (n : ℕ) (fs : List FieldDefinition) (d : Dict String String) (f : FieldDefinition)
    → Passed n fs d
    → get_elem? fs n ≡ some f
    → Given d f
    → Passed (suc n) fs d
Passed-suc n [] d f h e g = tt
Passed-suc zero (x ∷ fs) d f h e g = ((let e' : x ≡ f = ground (arith, e) in rw e' g), tt)
Passed-suc (suc n) (x ∷ fs) d f h e g = (h.0, Passed-suc n fs d f h.1 e g)

pub All-Passed :
    (n : ℕ) (fs : List FieldDefinition) (d : Dict String String)
    → Passed n fs d
    → get_elem? fs n ≡ none
    → All (Given d) fs
All-Passed n [] d h e = tt
All-Passed zero (f ∷ fs) d h e = absurd (ground (arith, e))
All-Passed (suc n) (f ∷ fs) d h e = (h.0, All-Passed n fs d h.1 e)

-- What holds of the sorted fields holds of the fields.
All-insert :
    (P : FieldDefinition → Type 0) (f : FieldDefinition) (fs : List FieldDefinition)
    → All P (insert f fs)
    → P f × All P fs
unfolding insert
All-insert P f [] h = h
All-insert P f (g ∷ gs) h = elim (Bool-cases (comes_before g f)) [
  | inl t ↦
      let h' : All P (g ∷ insert f gs) = rw t at h in
      let rest = All-insert P f gs h'.1 in (rest.0, (h'.0, rest.1))
  | inr t ↦ rw t at h
]

pub All-sorted :
    (P : FieldDefinition → Type 0) (fs : List FieldDefinition) → All P (sorted fs) → All P fs
unfolding sorted
All-sorted P [] h = tt
All-sorted P (f ∷ fs) h =
    let both = All-insert P f (sorted fs) h in (both.0, All-sorted P fs both.1)
