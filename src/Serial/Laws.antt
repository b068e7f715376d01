-- ===== src/Serial/Laws.antt =====
-- The serializer's contract: what it accepts, that its output is plain, and that it is idempotent.
use mco_louna_task.Serial.Converted.{Converted, serialize_value-Converted}
use mco_louna_task.Base.{Bool, true, false, ◌≡◌, refl}
use mco_louna_task.Values.{
  Value, Items, Fields, Key, none_value, bool_value, int, float, special_float, text, decimal, uuid,
  datetime, currency, status, dict, list, tuple, mapping_proxy, instance_of, opaque, nil, cons, end,
  field, Datetime,
}
use mco_louna_task.Errors.{Result, ok, err, ◌>>=◌, serialization_error}
use mco_louna_task.Serial.Value.{
  serialize_value, serialize_items, serialize_fields, serialize_datetime,
}

-- A plain value: None, text, numbers, booleans, a `Currency`, lists and dictionaries of plain
-- values, and an instant where `allowed` says so.
abbrev InstantAllowed : Bool → Type 0
InstantAllowed true = ⊥
InstantAllowed false = Unit

abbrev mutual
  pub IsPlain : Bool → Value → Type 0
  IsPlain iso none_value = Unit
  IsPlain iso (text t) = Unit
  IsPlain iso (int n) = Unit
  IsPlain iso (float x) = Unit
  IsPlain iso (special_float x) = Unit
  IsPlain iso (bool_value b) = Unit
  IsPlain iso (currency c) = Unit
  IsPlain iso (datetime d) = InstantAllowed iso
  IsPlain iso (dict fs) = IsPlainFields iso fs
  IsPlain iso (list vs) = IsPlainItems iso vs
  IsPlain iso (decimal d) = ⊥
  IsPlain iso (uuid u) = ⊥
  IsPlain iso (status s) = ⊥
  IsPlain iso (tuple vs) = ⊥
  IsPlain iso (mapping_proxy fs) = ⊥
  IsPlain iso (instance_of fs) = ⊥
  IsPlain iso (opaque n) = ⊥

  pub IsPlainItems : Bool → Items → Type 0
  IsPlainItems iso nil = Unit
  IsPlainItems iso (cons v vs) = IsPlain iso v × IsPlainItems iso vs

  pub IsPlainFields : Bool → Fields → Type 0
  IsPlainFields iso end = Unit
  IsPlainFields iso (field k v fs) = IsPlain iso v × IsPlainFields iso fs

-- No object of a type that the serializer does not know, at any depth.
abbrev mutual
  pub IsKnown : Value → Type 0
  IsKnown (opaque n) = ⊥
  IsKnown (dict fs) = IsKnownFields fs
  IsKnown (mapping_proxy fs) = IsKnownFields fs
  IsKnown (instance_of fs) = IsKnownFields fs
  IsKnown (list vs) = IsKnownItems vs
  IsKnown (tuple vs) = IsKnownItems vs
  IsKnown none_value = Unit
  IsKnown (text t) = Unit
  IsKnown (int n) = Unit
  IsKnown (float x) = Unit
  IsKnown (special_float x) = Unit
  IsKnown (bool_value b) = Unit
  IsKnown (currency c) = Unit
  IsKnown (datetime d) = Unit
  IsKnown (decimal d) = Unit
  IsKnown (uuid u) = Unit
  IsKnown (status s) = Unit

  pub IsKnownItems : Items → Type 0
  IsKnownItems nil = Unit
  IsKnownItems (cons v vs) = IsKnown v × IsKnownItems vs

  pub IsKnownFields : Fields → Type 0
  IsKnownFields end = Unit
  IsKnownFields (field k v fs) = IsKnown v × IsKnownFields fs

-- What a call of the serializer returns or raises, for the value that it was given.
abbrev pub Outcome : Bool → Value → Result Value → Type 0
Outcome iso v (ok r) = IsKnown v × IsPlain iso r × (serialize_value iso r ≡ ok r)
Outcome iso v (err e) = (e ≡ serialization_error) × (¬ IsKnown v)

abbrev OutcomeItems : Bool → Items → Result Items → Type 0
OutcomeItems iso v (ok r) = IsKnownItems v × IsPlainItems iso r × (serialize_items iso r ≡ ok r)
OutcomeItems iso v (err e) = (e ≡ serialization_error) × (¬ IsKnownItems v)

abbrev OutcomeFields : Bool → Fields → Result Fields → Type 0
OutcomeFields iso v (ok r) = IsKnownFields v × IsPlainFields iso r × (serialize_fields iso r ≡ ok r)
OutcomeFields iso v (err e) = (e ≡ serialization_error) × (¬ IsKnownFields v)

dict-Outcome :
    (iso : Bool) (fs : Fields) (m : Result Fields)
    → OutcomeFields iso fs m
    → Outcome iso (dict fs) (m >>= λ r. ok (dict r))
unfolding serialize_value
dict-Outcome iso fs (ok r) h = (h.0, h.1, rw h.2)
dict-Outcome iso fs (err e) h = h

list-Outcome :
    (iso : Bool) (vs : Items) (m : Result Items)
    → OutcomeItems iso vs m
    → Outcome iso (list vs) (m >>= λ r. ok (list r))
unfolding serialize_value
list-Outcome iso vs (ok r) h = (h.0, h.1, rw h.2)
list-Outcome iso vs (err e) h = h

cons-Outcome :
    (iso : Bool) (v : Value) (vs : Items) (m : Result Value) (n : Result Items)
    → Outcome iso v m
    → OutcomeItems iso vs n
    → OutcomeItems iso (cons v vs) (m >>= λ r. n >>= λ rs. ok (cons r rs))
unfolding serialize_items
cons-Outcome iso v vs (ok r) (ok rs) h k = ((h.0, k.0), (h.1, k.1), rw (h.2, k.2))
cons-Outcome iso v vs (ok r) (err e) h k = (k.0, λ known. k.1 known.1)
cons-Outcome iso v vs (err e) n h k = (h.0, λ known. h.1 known.0)

field-Outcome :
    (iso : Bool) (key : Key) (v : Value) (fs : Fields) (m : Result Value) (n : Result Fields)
    → Outcome iso v m
    → OutcomeFields iso fs n
    → OutcomeFields iso (field key v fs) (m >>= λ r. n >>= λ rs. ok (field key r rs))
unfolding serialize_fields
field-Outcome iso key v fs (ok r) (ok rs) h k = ((h.0, k.0), (h.1, k.1), rw (h.2, k.2))
field-Outcome iso key v fs (ok r) (err e) h k = (k.0, λ known. k.1 known.1)
field-Outcome iso key v fs (err e) n h k = (h.0, λ known. h.1 known.0)

datetime-Outcome :
    (iso : Bool) (d : Datetime) → Outcome iso (datetime d) (ok (serialize_datetime iso d))
unfolding serialize_value
datetime-Outcome true d = (tt, tt, refl)
datetime-Outcome false d = (tt, tt, refl)

mutual
  unfolding serialize_value

  value-Outcome : (iso : Bool) (v : Value) → Outcome iso v (serialize_value iso v)
  value-Outcome iso none_value = (tt, tt, refl)
  value-Outcome iso (text t) = (tt, tt, refl)
  value-Outcome iso (int n) = (tt, tt, refl)
  value-Outcome iso (float x) = (tt, tt, refl)
  value-Outcome iso (special_float x) = (tt, tt, refl)
  value-Outcome iso (bool_value b) = (tt, tt, refl)
  value-Outcome iso (currency c) = (tt, tt, refl)
  value-Outcome iso (decimal d) = (tt, tt, refl)
  value-Outcome iso (uuid u) = (tt, tt, refl)
  value-Outcome iso (status s) = (tt, tt, refl)
  value-Outcome iso (datetime d) = datetime-Outcome iso d
  value-Outcome iso (dict fs) =
      dict-Outcome iso fs (serialize_fields iso fs) (fields-Outcome iso fs)
  value-Outcome iso (mapping_proxy fs) =
      dict-Outcome iso fs (serialize_fields iso fs) (fields-Outcome iso fs)
  value-Outcome iso (instance_of fs) =
      dict-Outcome iso fs (serialize_fields iso fs) (fields-Outcome iso fs)
  value-Outcome iso (list vs) = list-Outcome iso vs (serialize_items iso vs) (items-Outcome iso vs)
  value-Outcome iso (tuple vs) = list-Outcome iso vs (serialize_items iso vs) (items-Outcome iso vs)
  value-Outcome iso (opaque n) = (refl, λ h. h)

  items-Outcome : (iso : Bool) (vs : Items) → OutcomeItems iso vs (serialize_items iso vs)
  items-Outcome iso nil = (tt, tt, refl)
  items-Outcome iso (cons v vs) =
      cons-Outcome iso v vs (serialize_value iso v) (serialize_items iso vs) (value-Outcome iso v)
        (items-Outcome iso vs)

  fields-Outcome : (iso : Bool) (fs : Fields) → OutcomeFields iso fs (serialize_fields iso fs)
  fields-Outcome iso end = (tt, tt, refl)
  fields-Outcome iso (field key v fs) =
      field-Outcome iso key v fs (serialize_value iso v) (serialize_fields iso fs)
        (value-Outcome iso v) (fields-Outcome iso fs)

-- For every value and both modes: either the serializer returns a plain value, which it would
-- return unchanged if it were given that, and no object of an unknown type is in the input; or it
-- raises `SerializationError`, and there is one. What it returns is the input converted: decimals,
-- UUIDs, statuses and, with `iso`, instants as their texts, tuples as lists, mappings and objects
-- as dictionaries with the same keys, at every depth, and the rest as it is.
pub serialize_value-Outcome :
    (iso : Bool) (v : Value)
    → Outcome iso v (serialize_value iso v) × Converted iso v (serialize_value iso v)
serialize_value-Outcome iso v = (value-Outcome iso v, serialize_value-Converted iso v)
