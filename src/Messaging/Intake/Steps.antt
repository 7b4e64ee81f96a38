-- ===== src/Messaging/Intake/Steps.antt =====
-- What the steps of src/dispatch_core/messaging/intake.py do with texts, fields and selections.
use dispatch_core.Shared.{
  ℕ, zero, suc, ◌||◌, any, ◌==ℕ◌, if◌then◌else◌, String, ◌==◌, string_eq, chars, text_of, strip,
  Option, none, some, List, [], ◌∷◌, ◌++◌,
}
use Prim.Native.Char.{code}
use dispatch_core.Shared.Dict.{Dict, put}
use dispatch_core.Domain.Events.{Value, Items, Payload}
use dispatch_core.Packs.Data.{FieldDefinition, FieldType}
use dispatch_core.Messaging.Intake.Data.{Library, has}

-- `text.strip()[:500]`
abbrev take {ℓ} : {A : Type ℓ} → ℕ → List A → List A
take zero xs = []
take (suc n) [] = []
take (suc n) (x ∷ xs) = x ∷ take n xs

unfoldable pub clip : String → String
unfolding strip
clip s = text_of (take 500 (chars (strip s)))

-- How many signs stand beside spaces and dashes.
abbrev pub sign_count : String → ℕ
sign_count String.[] = 0
sign_count (String.◌∷◌ c s) =
    let n = sign_count s in if (code c ==ℕ 32) || (code c ==ℕ 45) then n else suc n

abbrev pub get_elem? {ℓ} : {A : Type ℓ} → List A → ℕ → Option A
get_elem? [] n = none
get_elem? (x ∷ xs) zero = some x
get_elem? (x ∷ xs) (suc n) = get_elem? xs n

-- How many fields at the front have a value: the loops that look for the next field pass these.
unfoldable pub filled_ahead : List FieldDefinition → Dict String String → ℕ
filled_ahead [] values = 0
filled_ahead (f ∷ fs) values =
    let n = filled_ahead fs values in if has values f.key then suc n else 0

-- `next((choice for choice in choices if choice.casefold() == folded), None)`
abbrev choice_of : Library → List String → String → Option String
choice_of library [] value = none
choice_of library (c ∷ cs) value =
    if library.casefold c == library.casefold value then some c else choice_of library cs value

-- `_normalize_field_value`
abbrev normalize : Library → FieldType → List String → String → Option String
normalize library FieldType.integer choices value = library.whole_number value
normalize library FieldType.enumeration choices value = choice_of library choices value
normalize library _ choices value = some value

unfoldable pub normalize_field_value : Library → FieldDefinition → String → Option String
normalize_field_value library f value = normalize library f.field_type f.choices value

-- `selected.remove(key)`: the first that is the key.
abbrev pub remove : String → List String → List String
remove key [] = []
remove key (k ∷ ks) = let rest = remove key ks in if k == key then ks else k ∷ rest

-- `selected` with the key put in or taken out
unfoldable pub toggle : String → List String → List String
toggle key selected =
    if any (λ k. k == key) selected then remove key selected else selected ++ key ∷ []

abbrev pub texts : List String → Items
texts [] = Items.nil
texts (s ∷ ss) = Items.cons (Value.text s) (texts ss)

-- `{**details, **field_values}`
unfoldable pub with_values : Payload → Dict String String → Payload
with_values details [] = details
with_values details ((key, value) ∷ d) = with_values (put details key (Value.text value)) d
