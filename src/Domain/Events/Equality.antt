-- ===== src/Domain/Events/Equality.antt =====
-- `==` of JSON values, and of the dicts that hold them: two dicts are equal if they have as many keys,
-- and each key of the one has an equal value in the other.
use dispatch_core.Shared.{
  ℕ, suc, Bool, true, false, ◌&&◌, ◌==ℕ◌, String, ◌==◌, string_eq, Option, none, some, [], ◌∷◌,
  if◌then◌else◌,
}
use dispatch_core.Domain.Events.{Value, Items, Fields, Payload}
use dispatch_core.Domain.Events.Value.{null, flag, number, text, instant, items, object}
use dispatch_core.Domain.Events.Items.{nil, cons}
use dispatch_core.Domain.Events.Fields.{end, field}

abbrev same_flag : Bool → Bool → Bool
same_flag true b = b
same_flag false true = false
same_flag false false = true

-- `True == 1` and `False == 0`
abbrev as_number : Bool → ℕ
as_number true = 1
as_number false = 0

abbrev find : String → Fields → Option Value
find k end = none
find k (field j v fs) = if j == k then some v else find k fs

abbrev size : Fields → ℕ
size end = 0
size (field j v fs) = suc (size fs)

unfoldable mutual
  pub same_value : Value → Value → Bool
  same_value null null = true
  same_value (flag a) (flag b) = same_flag a b
  same_value (number a) (number b) = a ==ℕ b
  same_value (flag a) (number b) = as_number a ==ℕ b
  same_value (number a) (flag b) = a ==ℕ as_number b
  same_value (text a) (text b) = a == b
  same_value (instant a) (instant b) = a ==ℕ b
  same_value (items xs) (items ys) = same_items xs ys
  same_value (object fs) (object gs) = (size fs ==ℕ size gs) && are_found fs gs
  same_value _ _ = false

  pub same_items : Items → Items → Bool
  same_items nil nil = true
  same_items (cons x xs) (cons y ys) = same_value x y && same_items xs ys
  same_items _ _ = false

  pub are_found : Fields → Fields → Bool
  are_found end gs = true
  are_found (field k v fs) gs = elim (find k gs) [
    | none ↦ false
    | some w ↦ same_value v w && are_found fs gs
  ]

abbrev fields_of : Payload → Fields
fields_of [] = end
fields_of ((k, v) ∷ d) = field k v (fields_of d)

-- `a == b` of two dicts
unfoldable pub same_details : Payload → Payload → Bool
unfolding same_value
same_details a b = same_value (object (fields_of a)) (object (fields_of b))
