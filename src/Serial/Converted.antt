-- ===== src/Serial/Converted.antt =====
-- What `_serialize_value` (serializer.py) makes of each value, described apart from its clauses.
use mco_louna_task.Errors.{Result, ok, err, ◌>>=◌}
use mco_louna_task.Serial.Value.{
  serialize_datetime, serialize_fields, serialize_items, serialize_value,
}
use mco_louna_task.Values.{
  Value, Items, Fields, Key, none_value, bool_value, int, float, special_float, text, decimal, uuid,
  datetime, currency, status, dict, list, tuple, mapping_proxy, instance_of, opaque, nil, cons, end,
  field, str, uuid_text, decimal_text, iso_text, status_value, Currency, Datetime, Decimal,
  PaymentStatus, Text, Uuid, ℤ,
}
use mco_louna_task.Base.{ℕ, Bool, true, false}

-- What becomes of a status and of an instant.
abbrev status_text : PaymentStatus → Text
status_text PaymentStatus.pending = str "PENDING"
status_text PaymentStatus.confirmed = str "CONFIRMED"
status_text PaymentStatus.failed = str "FAILED"

-- Texts, numbers, booleans, None and currencies are kept; decimals, UUIDs and statuses become their
-- texts, and an instant its ISO text or, without `iso`, itself; a list or a tuple becomes a list, and
-- a mapping or an object with fields a dictionary with the same keys in the same order, each with
-- converted values. Nothing is made of an object of another type.
mutual
  pub data Converts : Bool → Value → Value → Type 0 where
    keep_none : {iso : Bool} → Converts iso none_value none_value
    keep_text : {iso : Bool} (t : Text) → Converts iso (text t) (text t)
    keep_int : {iso : Bool} (n : ℤ) → Converts iso (int n) (int n)
    keep_float : {iso : Bool} (x : ℕ) → Converts iso (float x) (float x)
    keep_special_float : {iso : Bool} (x : ℕ) → Converts iso (special_float x) (special_float x)
    keep_bool : {iso : Bool} (b : Bool) → Converts iso (bool_value b) (bool_value b)
    keep_currency : {iso : Bool} (c : Currency) → Converts iso (currency c) (currency c)
    decimal_to_text : {iso : Bool} (d : Decimal) → Converts iso (decimal d) (text (decimal_text d))
    uuid_to_text : {iso : Bool} (u : Uuid) → Converts iso (uuid u) (text (uuid_text u))
    status_to_text :
        {iso : Bool} (s : PaymentStatus) → Converts iso (status s) (text (status_text s))
    datetime_to_text : (d : Datetime) → Converts true (datetime d) (text (iso_text d))
    keep_datetime : (d : Datetime) → Converts false (datetime d) (datetime d)
    list_to_list :
        {iso : Bool} {vs rs : Items} → ConvertsItems iso vs rs → Converts iso (list vs) (list rs)
    tuple_to_list :
        {iso : Bool} {vs rs : Items} → ConvertsItems iso vs rs → Converts iso (tuple vs) (list rs)
    dict_to_dict :
        {iso : Bool} {fs gs : Fields} → ConvertsFields iso fs gs → Converts iso (dict fs) (dict gs)
    mapping_to_dict :
        {iso : Bool} {fs gs : Fields}
        → ConvertsFields iso fs gs
        → Converts iso (mapping_proxy fs) (dict gs)
    instance_to_dict :
        {iso : Bool} {fs gs : Fields}
        → ConvertsFields iso fs gs
        → Converts iso (instance_of fs) (dict gs)

  pub data ConvertsItems : Bool → Items → Items → Type 0 where
    no_item : {iso : Bool} → ConvertsItems iso nil nil
    next_item :
        {iso : Bool} {v r : Value} {vs rs : Items}
        → Converts iso v r
        → ConvertsItems iso vs rs
        → ConvertsItems iso (cons v vs) (cons r rs)

  pub data ConvertsFields : Bool → Fields → Fields → Type 0 where
    no_field : {iso : Bool} → ConvertsFields iso end end
    next_field :
        {iso : Bool} {v r : Value} {fs gs : Fields} (k : Key)
        → Converts iso v r
        → ConvertsFields iso fs gs
        → ConvertsFields iso (field k v fs) (field k r gs)

-- A value that the serializer returns is what its description makes of the input.
abbrev pub Converted : Bool → Value → Result Value → Type 0
Converted iso v (ok r) = Converts iso v r
Converted iso v (err e) = Unit

abbrev ConvertedItems : Bool → Items → Result Items → Type 0
ConvertedItems iso vs (ok rs) = ConvertsItems iso vs rs
ConvertedItems iso vs (err e) = Unit

abbrev ConvertedFields : Bool → Fields → Result Fields → Type 0
ConvertedFields iso fs (ok gs) = ConvertsFields iso fs gs
ConvertedFields iso fs (err e) = Unit

list-Converted :
    (iso : Bool) (v : Value) (vs : Items) (m : Result Items)
    → ((rs : Items) → ConvertsItems iso vs rs → Converts iso v (list rs))
    → ConvertedItems iso vs m
    → Converted iso v (m >>= λ rs. ok (list rs))
list-Converted iso v vs (ok rs) to h = to rs h
list-Converted iso v vs (err e) to h = tt

dict-Converted :
    (iso : Bool) (v : Value) (fs : Fields) (m : Result Fields)
    → ((gs : Fields) → ConvertsFields iso fs gs → Converts iso v (dict gs))
    → ConvertedFields iso fs m
    → Converted iso v (m >>= λ gs. ok (dict gs))
dict-Converted iso v fs (ok gs) to h = to gs h
dict-Converted iso v fs (err e) to h = tt

cons-Converted :
    (iso : Bool) (v : Value) (vs : Items) (m : Result Value) (n : Result Items)
    → Converted iso v m
    → ConvertedItems iso vs n
    → ConvertedItems iso (cons v vs) (m >>= λ r. n >>= λ rs. ok (cons r rs))
cons-Converted iso v vs (ok r) (ok rs) h k = next_item h k
cons-Converted iso v vs (ok r) (err e) h k = tt
cons-Converted iso v vs (err e) n h k = tt

field-Converted :
    (iso : Bool) (key : Key) (v : Value) (fs : Fields) (m : Result Value) (n : Result Fields)
    → Converted iso v m
    → ConvertedFields iso fs n
    → ConvertedFields iso (field key v fs) (m >>= λ r. n >>= λ gs. ok (field key r gs))
field-Converted iso key v fs (ok r) (ok gs) h k = next_field key h k
field-Converted iso key v fs (ok r) (err e) h k = tt
field-Converted iso key v fs (err e) n h k = tt

datetime-Converted :
    (iso : Bool) (d : Datetime) → Converted iso (datetime d) (ok (serialize_datetime iso d))
datetime-Converted true d = datetime_to_text d
datetime-Converted false d = keep_datetime d

status-Converted :
    (iso : Bool) (s : PaymentStatus) → Converted iso (status s) (ok (text (str (status_value s))))
status-Converted iso PaymentStatus.pending = status_to_text PaymentStatus.pending
status-Converted iso PaymentStatus.confirmed = status_to_text PaymentStatus.confirmed
status-Converted iso PaymentStatus.failed = status_to_text PaymentStatus.failed

mutual
  unfolding serialize_value

  pub serialize_value-Converted : (iso : Bool) (v : Value) → Converted iso v (serialize_value iso v)
  serialize_value-Converted iso none_value = keep_none
  serialize_value-Converted iso (text t) = keep_text t
  serialize_value-Converted iso (int n) = keep_int n
  serialize_value-Converted iso (float x) = keep_float x
  serialize_value-Converted iso (special_float x) = keep_special_float x
  serialize_value-Converted iso (bool_value b) = keep_bool b
  serialize_value-Converted iso (currency c) = keep_currency c
  serialize_value-Converted iso (decimal d) = decimal_to_text d
  serialize_value-Converted iso (uuid u) = uuid_to_text u
  serialize_value-Converted iso (status s) = status-Converted iso s
  serialize_value-Converted iso (datetime d) = datetime-Converted iso d
  serialize_value-Converted iso (dict fs) =
      dict-Converted iso (dict fs) fs (serialize_fields iso fs) (λ gs h. dict_to_dict h)
        (serialize_fields-Converted iso fs)
  serialize_value-Converted iso (mapping_proxy fs) =
      dict-Converted iso (mapping_proxy fs) fs (serialize_fields iso fs) (λ gs h. mapping_to_dict h)
        (serialize_fields-Converted iso fs)
  serialize_value-Converted iso (instance_of fs) =
      dict-Converted iso (instance_of fs) fs (serialize_fields iso fs) (λ gs h. instance_to_dict h)
        (serialize_fields-Converted iso fs)
  serialize_value-Converted iso (list vs) =
      list-Converted iso (list vs) vs (serialize_items iso vs) (λ rs h. list_to_list h)
        (serialize_items-Converted iso vs)
  serialize_value-Converted iso (tuple vs) =
      list-Converted iso (tuple vs) vs (serialize_items iso vs) (λ rs h. tuple_to_list h)
        (serialize_items-Converted iso vs)
  serialize_value-Converted iso (opaque n) = tt

  serialize_items-Converted :
      (iso : Bool) (vs : Items) → ConvertedItems iso vs (serialize_items iso vs)
  serialize_items-Converted iso nil = no_item
  serialize_items-Converted iso (cons v vs) =
      cons-Converted iso v vs (serialize_value iso v) (serialize_items iso vs)
        (serialize_value-Converted iso v) (serialize_items-Converted iso vs)

  serialize_fields-Converted :
      (iso : Bool) (fs : Fields) → ConvertedFields iso fs (serialize_fields iso fs)
  serialize_fields-Converted iso end = no_field
  serialize_fields-Converted iso (field key v fs) =
      field-Converted iso key v fs (serialize_value iso v) (serialize_fields iso fs)
        (serialize_value-Converted iso v) (serialize_fields-Converted iso fs)
