-- ===== src/Serial/Value.antt =====
-- `_serialize_value` (serializer.py), clause by clause in the order of its tests, and what
-- `json.dumps` takes. A `Currency` is a `str`, so the serializer passes it on and `json.dumps`
-- writes its value.
use mco_louna_task.Base.{Bool, true, false}
use mco_louna_task.Values.{
  Value, Items, Fields, Key, none_value, bool_value, int, float, special_float, text, decimal, uuid,
  datetime, currency, status, dict, list, tuple, mapping_proxy, instance_of, opaque, nil, cons, end,
  field, str_key, other_key, str, uuid_text, decimal_text, iso_text, currency_value, status_value,
}
use mco_louna_task.Errors.{Result, ok, err, ◌>>=◌, serialization_error, type_error, value_error}

abbrev pub serialize_datetime : Bool → mco_louna_task.Values.Datetime → Value
serialize_datetime true d = text (iso_text d)
serialize_datetime false d = datetime d

unfoldable mutual
  pub serialize_value : Bool → Value → Result Value
  serialize_value iso none_value = ok none_value
  serialize_value iso (text t) = ok (text t)
  serialize_value iso (int n) = ok (int n)
  serialize_value iso (float x) = ok (float x)
  serialize_value iso (special_float x) = ok (special_float x)
  serialize_value iso (bool_value b) = ok (bool_value b)
  serialize_value iso (currency c) = ok (currency c)
  serialize_value iso (decimal d) = ok (text (decimal_text d))
  serialize_value iso (uuid u) = ok (text (uuid_text u))
  serialize_value iso (datetime d) = ok (serialize_datetime iso d)
  serialize_value iso (status s) = ok (text (str (status_value s)))
  serialize_value iso (dict fs) = serialize_fields iso fs >>= λ r. ok (dict r)
  serialize_value iso (list vs) = serialize_items iso vs >>= λ r. ok (list r)
  serialize_value iso (tuple vs) = serialize_items iso vs >>= λ r. ok (list r)
  serialize_value iso (mapping_proxy fs) = serialize_fields iso fs >>= λ r. ok (dict r)
  serialize_value iso (instance_of fs) = serialize_fields iso fs >>= λ r. ok (dict r)
  serialize_value iso (opaque n) = err serialization_error

  pub serialize_items : Bool → Items → Result Items
  serialize_items iso nil = ok nil
  serialize_items iso (cons v vs) =
      serialize_value iso v >>= λ r. serialize_items iso vs >>= λ rs. ok (cons r rs)

  pub serialize_fields : Bool → Fields → Result Fields
  serialize_fields iso end = ok end
  serialize_fields iso (field k v fs) =
      serialize_value iso v >>= λ r. serialize_fields iso fs >>= λ rs. ok (field k r rs)

-- `json.loads(json.dumps(value))`: the value that a reader of the text has, if a column of type JSON
-- takes the text, which it does not for NaN and the infinities. `other_key` stands for a key that
-- JSON cannot carry.
unfoldable mutual
  pub json_value : Value → Result Value
  json_value none_value = ok none_value
  json_value (text t) = ok (text t)
  json_value (int n) = ok (int n)
  json_value (float x) = ok (float x)
  json_value (special_float x) = err value_error
  json_value (bool_value b) = ok (bool_value b)
  json_value (currency c) = ok (text (str (currency_value c)))
  json_value (decimal d) = err type_error
  json_value (uuid u) = err type_error
  json_value (datetime d) = err type_error
  json_value (status s) = err type_error
  json_value (dict fs) = json_fields fs >>= λ r. ok (dict r)
  json_value (list vs) = json_items vs >>= λ r. ok (list r)
  json_value (tuple vs) = json_items vs >>= λ r. ok (list r)
  json_value (mapping_proxy fs) = err type_error
  json_value (instance_of fs) = err type_error
  json_value (opaque n) = err type_error

  pub json_items : Items → Result Items
  json_items nil = ok nil
  json_items (cons v vs) = json_value v >>= λ r. json_items vs >>= λ rs. ok (cons r rs)

  pub json_fields : Fields → Result Fields
  json_fields end = ok end
  json_fields (field (str_key k) v fs) =
      json_value v >>= λ r. json_fields fs >>= λ rs. ok (field (str_key k) r rs)
  json_fields (field (other_key n) v fs) = err type_error
