-- ===== src/Packs/Data.antt =====
-- The data classes of src/dispatch_core/packs/catalog.py, with the checks of their constructors, but for
-- their JSON forms and the sorting of the fields. A check returns what it is given.
use dispatch_core.Shared.{
  ℕ, Bool, true, false, not, ◌&&◌, ◌||◌, if◌then◌else◌, String, is_empty, List, [], ◌∷◌, map, any,
  ◌==◌, string_eq,
}
use dispatch_core.Shared.Dict.{Dict}
use dispatch_core.Domain.Errors.{Result, ok, raise_if, ◌>>◌, value_error, Invalid}
use dispatch_core.Domain.WorkOrder.{EvidenceRequirements, PoolMode}

-- `int`
pub data ℤ : Type 0 where
  pos negsuc : ℕ → ℤ

pub data FieldType : Type 0 where
  text integer address asset_reference route enumeration : FieldType

abbrev pub is_integer : FieldType → Bool
is_integer FieldType.integer = true
is_integer _ = false

abbrev is_enumeration : FieldType → Bool
is_enumeration FieldType.enumeration = true
is_enumeration _ = false

pub record FieldDefinition : Type 0 where
  pub key : String
  pub label : String
  pub field_type : FieldType
  pub required : Bool
  pub choices : List String
  pub prompt : String
  pub order : ℤ

abbrev pub is_nil {ℓ} : {A : Type ℓ} → List A → Bool
is_nil [] = true
is_nil (x ∷ xs) = false

unfoldable pub check_field : FieldDefinition → Result FieldDefinition
check_field f =
    raise_if (is_empty f.key || is_empty f.label) (value_error Invalid.field_identity_required)
    >> raise_if (is_enumeration f.field_type && is_nil f.choices)
        (value_error Invalid.choices_required)
    >> raise_if (not (is_enumeration f.field_type) && not (is_nil f.choices))
        (value_error Invalid.choices_of_no_enum)
    >> ok f

pub record Branding : Type 0 where
  pub name : String
  pub greeting : String
  pub support : String

pub record ServiceCategory : Type 0 where
  pub key : String
  pub label : String

unfoldable pub check_category : ServiceCategory → Result ServiceCategory
check_category c =
    raise_if (is_empty c.key || is_empty c.label) (value_error Invalid.category_identity_required)
    >> ok c

pub record ServiceCatalog : Type 0 where
  pub categories : List ServiceCategory
  pub multi_select : Bool

-- `len(keys) != len(set(keys))`
unfoldable pub has_repeat : List String → Bool
has_repeat [] = false
has_repeat (k ∷ ks) = any (λ j. j == k) ks || has_repeat ks

unfoldable pub check_catalog : ServiceCatalog → Result ServiceCatalog
check_catalog c =
    raise_if (has_repeat (map (λ x. x.key) c.categories)) (value_error Invalid.repeated_category)
    >> ok c

-- The loop of `label_for`.
unfoldable pub label_among : List ServiceCategory → String → String
label_among [] key = key
label_among (c ∷ cs) key = if c.key == key then c.label else label_among cs key

unfoldable pub label_for : ServiceCatalog → String → String
label_for catalog key = label_among catalog.categories key

pub record PackDefinition : Type 0 where
  pub branding : Branding
  pub service_catalog : ServiceCatalog
  pub fields : List FieldDefinition
  pub evidence : EvidenceRequirements
  pub role_labels : Dict String String
  pub default_pool_mode : PoolMode

abbrev pub default_role_labels : Dict String String
default_role_labels = ("master", "Мастер") ∷ ("operator", "Оператор") ∷ ("client", "Клиент") ∷ []

pub record IndustryPack : Type 0 where
  pub pack_id : String
  pub title : String
  pub work_types : List String
  pub branding : Branding
  pub service_catalog : ServiceCatalog
  pub fields : List FieldDefinition
  pub completion_evidence : EvidenceRequirements
  pub status : String

unfoldable pub check_pack : IndustryPack → Result IndustryPack
check_pack p =
    raise_if (is_empty p.pack_id || is_empty p.title || is_nil p.work_types)
      (value_error Invalid.pack_identity_required)
    >> raise_if (has_repeat (map (λ f. f.key) p.fields)) (value_error Invalid.repeated_field)
    >> ok p

unfoldable pub to_definition : IndustryPack → PackDefinition
to_definition p = record {
  branding = p.branding;
  service_catalog = p.service_catalog;
  fields = p.fields;
  evidence = p.completion_evidence;
  role_labels = default_role_labels;
  default_pool_mode = PoolMode.curated;
}
