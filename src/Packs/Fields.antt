-- ===== src/Packs/Fields.antt =====
-- What src/dispatch_core/packs/catalog.py makes of a pack's fields: the question of a field, and the
-- fields in the order of `(order, key)`.
use dispatch_core.Shared.{
  Bool, true, false, not, ◌&&◌, ◌||◌, ltb, if◌then◌else◌, String, is_empty, List, [], ◌∷◌, concat,
}
use Prim.Native.String.{compare}
use Prim.Native.Nat.{Ordering}
use dispatch_core.Packs.Data.{ℤ, pos, negsuc, FieldDefinition, PackDefinition}

-- `FieldDefinition.ask`
unfoldable pub ask : FieldDefinition → String
unfolding concat
ask f = if is_empty f.prompt then concat "Введите: " f.label else f.prompt

-- `a < b` of two `int`s
abbrev int_lt : ℤ → ℤ → Bool
int_lt (pos a) (pos b) = ltb a b
int_lt (pos a) (negsuc b) = false
int_lt (negsuc a) (pos b) = true
int_lt (negsuc a) (negsuc b) = ltb b a

-- `a < b` of two `str`s
abbrev string_lt : String → String → Bool
string_lt a b = elim (compare a b) [ Ordering.lt ↦ true | _ ↦ false ]

-- `(f.order, f.key) < (g.order, g.key)`
abbrev pub comes_before : FieldDefinition → FieldDefinition → Bool
comes_before f g = int_lt f.order g.order || (not (int_lt g.order f.order) && string_lt f.key g.key)

unfoldable pub insert : FieldDefinition → List FieldDefinition → List FieldDefinition
insert f [] = f ∷ []
insert f (g ∷ gs) = let rest = insert f gs in if comes_before g f then g ∷ rest else f ∷ g ∷ gs

-- `sorted(fields, key=lambda item: (item.order, item.key))`, which is stable
unfoldable pub sorted : List FieldDefinition → List FieldDefinition
unfolding insert
sorted [] = []
sorted (f ∷ fs) = insert f (sorted fs)

unfoldable pub ordered_fields : PackDefinition → List FieldDefinition
unfolding sorted
ordered_fields p = sorted p.fields
