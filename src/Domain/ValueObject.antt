-- ===== src/Domain/ValueObject.antt =====
-- `ValueObject` (shared/domain/value_object.py): the value, the `_rebuilding` flag, the check of
-- types that runs in the DEV environment, and the two equalities of the subclasses.
use mco_louna_task.Base.{Bool, true, false, not, ◌&&◌, String}
use mco_louna_task.Values.{
  Value, str, cat, none_value, bool_value, int, float, special_float, text, decimal, uuid, datetime,
  currency, status, tuple, mapping_proxy, dict, list, instance_of, opaque,
}
use mco_louna_task.Errors.{Result, raise_if, raise_domain, wrong_type}
use mathlib.Core.Option.{none}

pub record ValueObject (A : Type 0) : Type 0 where
  pub value : A
  pub rebuilding : Bool

abbrev pub rebuild : {A : Type 0} → A → ValueObject A
rebuild a = record { value = a; rebuilding = true }

-- `isinstance(value, self._SAFE_TYPES)`
unfoldable pub is_safe_type : Value → Bool
is_safe_type (dict _) = false
is_safe_type (list _) = false
is_safe_type (instance_of _) = false
is_safe_type (opaque _) = false
is_safe_type _ = true

-- `type(value).__name__`
unfoldable pub type_name : Value → String
type_name none_value = "NoneType"
type_name (bool_value _) = "bool"
type_name (int _) = "int"
type_name (float _) = "float"
type_name (special_float _) = "float"
type_name (text _) = "str"
type_name (decimal _) = "Decimal"
type_name (uuid _) = "UUID"
type_name (datetime _) = "datetime"
type_name (currency _) = "Currency"
type_name (status _) = "PaymentStatus"
type_name (dict _) = "dict"
type_name (list _) = "list"
type_name (tuple _) = "tuple"
type_name (mapping_proxy _) = "mappingproxy"
type_name (instance_of _) = "object"
type_name (opaque _) = "object"

-- `ValueObject.__post_init__` outside a rebuild, for the class and the field that are named.
unfoldable pub base_post_init : Bool → String → Value → Result (Unit {0})
unfolding is_safe_type
base_post_init dev name value = raise_if (dev && not (is_safe_type value)) (
    raise_domain wrong_type (cat (str name) (cat (str " has unsafe type ") (str (type_name value))))
      none)

abbrev bool_eq : Bool → Bool → Bool
bool_eq true b = b
bool_eq false b = not b

module _ {A : Type 0} (eq : A → A → Bool) where
  -- `ValueObject.__eq__`, which `Amount` inherits (`eq=False`)
  unfoldable pub value_eq : ValueObject A → ValueObject A → Bool
  value_eq a b = eq a.value b.value

  -- The other subclasses are plain dataclasses: their generated `__eq__` compares every field, the
  -- flag `_rebuilding` too.
  unfoldable pub dataclass_eq : ValueObject A → ValueObject A → Bool
  dataclass_eq a b = bool_eq a.rebuilding b.rebuilding && eq a.value b.value
