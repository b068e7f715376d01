-- ===== src/Domain/Aggregate.antt =====
-- `Aggregate` (shared/domain/aggregate.py): the check of the field types that runs in the DEV
-- environment, and the guard of the identifier. What `isinstance` tells of a value is its kind.
use mco_louna_task.Values.{Text, cat, str}
use mco_louna_task.Errors.{Result, err, ok, raise_domain, raise_if, simple_error, wrong_type, ◌>>◌}
use mco_louna_task.Base.{
  Bool, List, Option, String, [], false, if◌then◌else◌, none, not, some, str_eq, true, ◌||◌, ◌∷◌,
}

pub data Kind : Type 0 where
  enum none_type bool value_object entity domain_event plain : Kind

-- A field holds one value, or a `Sequence`, of which the check looks at the elements. An enum member
-- is `single enum`, also where it is a text.
pub data FieldValue : Type 0 where
  single : Kind → FieldValue
  sequence : List Kind → FieldValue

pub record Field : Type 0 where
  pub name : String
  pub value : FieldValue

-- `isinstance(el, (ValueObject, Entity, DomainEvent, Enum))`
unfoldable pub is_domain_element : Kind → Bool
is_domain_element Kind.value_object = true
is_domain_element Kind.entity = true
is_domain_element Kind.domain_event = true
is_domain_element Kind.enum = true
is_domain_element _ = false

-- An element of another kind raises.
unfoldable pub validate_elements : List Kind → Result (Unit {0})
unfolding is_domain_element
validate_elements [] = ok tt
validate_elements (k ∷ ks) = do
  raise_if (not (is_domain_element k))
      (simple_error wrong_type "Sequence elements must be domain objects")
  validate_elements ks

-- the tests of one field, in their order
unfoldable pub validate_value : FieldValue → Result (Unit {0})
unfolding validate_elements
validate_value (single Kind.enum) = ok tt
validate_value (single Kind.none_type) = ok tt
validate_value (single Kind.bool) = ok tt
validate_value (sequence ks) = validate_elements ks
validate_value (single Kind.value_object) = ok tt
validate_value (single Kind.entity) = ok tt
validate_value (single Kind.domain_event) = ok tt
validate_value (single Kind.plain) =
    err (simple_error wrong_type "Aggregate field must be domain object or primitive type")

-- `f.name == "id" or f.name == "_rebuilding"`
unfoldable pub is_skipped : String → Bool
is_skipped name = str_eq name "id" || str_eq name "_rebuilding"

unfoldable pub validate_field : Field → Result (Unit {0})
unfolding is_skipped validate_value
validate_field f = if is_skipped f.name then ok tt else validate_value f.value

-- `_validate_field_types`
unfoldable pub validate_field_types : List Field → Result (Unit {0})
unfolding validate_field
validate_field_types [] = ok tt
validate_field_types (f ∷ fs) = do validate_field f; validate_field_types fs

-- `Aggregate.__post_init__`; the first flag is `ENV == "DEV"`, the second `type(self) is Aggregate`
unfoldable pub aggregate_post_init : Bool → Bool → List Field → Result (Unit {0})
unfolding validate_field_types
aggregate_post_init false is_base fields = ok tt
aggregate_post_init true is_base fields = do
  raise_if is_base (simple_error wrong_type "Attempt to instantiate Aggregate base directly")
  validate_field_types fields

-- `__setattr__` of the name `id`, where the slot holds the first argument
unfoldable pub set_id : {A : Type 0} → Text → Option A → A → Result (Option A)
set_id class_text none value = ok (some value)
set_id class_text (some old) value = err (
    raise_domain wrong_type (str "Changing aggregate ID is not permitted")
      (some (cat (str "Attempt to rewrite ID in ") (cat class_text (str ".")))))
