-- ===== src/Domain/Entity.antt =====
-- `Entity` (shared/domain/entity.py): its check of the attributes in the DEV environment, its
-- equality and the guard of its identifier. `dir` and `callable` are Python's: an attribute comes
-- with its name, whether it is callable, and its kind.
use mco_louna_task.Values.{Text, cat, str}
use mco_louna_task.Errors.{err, raise_domain, Result, ok, raise_if, simple_error, wrong_type, ◌>>◌}
use mco_louna_task.Domain.Aggregate.{FieldValue, Kind, sequence, single}
use mco_louna_task.Base.{
  Option, none, some, Bool, List, String, [], arith, false, if◌then◌else◌, not, str_eq, true, ◌&&◌,
  ◌++◌, ◌∷◌, ◌≢◌,
}

pub record Attribute : Type 0 where
  pub name : String
  pub callable : Bool
  pub value : FieldValue

-- `isinstance(el, ValueObject | Enum | DomainEvent)`
unfoldable pub is_entity_element : Kind → Bool
is_entity_element Kind.value_object = true
is_entity_element Kind.enum = true
is_entity_element Kind.domain_event = true
is_entity_element _ = false

unfoldable pub validate_sequence : List Kind → Result (Unit {0})
unfolding is_entity_element
validate_sequence [] = ok tt
validate_sequence (k ∷ ks) = do
  raise_if (not (is_entity_element k)) (
      simple_error wrong_type
        "Entity attribute must be descendant of Value Object class in Sequences too")
  validate_sequence ks

-- The branch of a value that is no sequence tests `self`, not the value: `self_is_value` tells
-- whether the entity itself is a `ValueObject` or an `Enum`.
unfoldable pub validate_attribute_value : Bool → FieldValue → Result (Unit {0})
unfolding validate_sequence
validate_attribute_value self_is_value (sequence ks) = validate_sequence ks
validate_attribute_value self_is_value (single k) =
    raise_if (not self_is_value)
      (simple_error wrong_type "Entity attribute must be descendant of Value Object class")

unfoldable pub validate_attribute : Bool → Attribute → Result (Unit {0})
unfolding validate_attribute_value
validate_attribute self_is_value a =
    if not a.callable && not (str_eq a.name "id")
    then validate_attribute_value self_is_value a.value
    else ok tt

-- `_validate_field_types`, on the attributes that `dir(self)` lists
unfoldable pub validate_attributes : Bool → List Attribute → Result (Unit {0})
unfolding validate_attribute
validate_attributes self_is_value [] = ok tt
validate_attributes self_is_value (a ∷ as') = do
  validate_attribute self_is_value a
  validate_attributes self_is_value as'

-- `Entity.__post_init__`: rebuilding, in DEV, `type(self) is Entity`
unfoldable pub entity_post_init : Bool → Bool → Bool → Bool → List Attribute → Result (Unit {0})
unfolding validate_attributes
entity_post_init rebuilding dev is_base self_is_value attributes =
    if not rebuilding && dev
    then raise_if is_base (simple_error wrong_type "Attempt to instantiate Aggregate base directly")
      >> validate_attributes self_is_value attributes
    else ok tt

-- the slot `_rebuilding`, which every entity has
abbrev pub rebuilding_attribute : Attribute
rebuilding_attribute = record { name = "_rebuilding"; callable = false; value = single Kind.bool }

validate-append :
    (before after : List Attribute)
    → validate_attributes false (before ++ rebuilding_attribute ∷ after) ≢ ok tt
unfolding validate_attributes
validate-append [] after h = cc h
validate-append (a ∷ before) after h = ground (arith, validate-append before after, h)

-- No entity passes the check: in DEV, whatever attributes it has besides the slot `_rebuilding`, an
-- entity that is no value object and that is not rebuilt cannot be made.
pub entity_post_init_dev :
    (is_base : Bool) (before after : List Attribute)
    → entity_post_init false true is_base false (before ++ rebuilding_attribute ∷ after) ≢ ok tt
unfolding entity_post_init
entity_post_init_dev true before after h = cc h
entity_post_init_dev false before after h = validate-append before after h

-- `Entity.__eq__` of two entities of one class
abbrev pub entity_eq : {A : Type 0} → (A → A → Bool) → A → A → Bool
entity_eq id_eq self_id other_id = id_eq other_id self_id

-- `__setattr__` of the name `id`, where the slot holds the first option
unfoldable pub set_entity_id : {A : Type 0} → Text → Option A → A → Result (Option A)
set_entity_id class_text none value = ok (some value)
set_entity_id class_text (some old) value = err (
    raise_domain wrong_type (str "Changing entity ID is not permitted")
      (some (cat (str "Attempt to rewrite ID in ") (cat class_text (str ".")))))
