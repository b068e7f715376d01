-- ===== src/Serial/Event.antt =====
-- `serialize_event` (serializer.py), the row and the message that carry its result, and the
-- message of the publisher (`_parse_event_to_message` of infrastructure/broker/event_bus.py).
use mco_louna_task.Base.{Bool, true, ◌||◌, String, str_eq, if◌then◌else◌}
use mco_louna_task.Values.{
  Text, Value, Fields, uuid, datetime, text, dict, end, field, str_key, other_key, str, uuid_text,
}
use mco_louna_task.Errors.{Result, ok, ◌>>=◌}
use mco_louna_task.Domain.Event.{Event, Body, class_of, registry_key}
use mco_louna_task.Serial.Value.{serialize_value, serialize_datetime, json_value}

pub record Envelope : Type 0 where
  pub id : Text
  pub occurred_at : Value
  pub queue : String
  pub payload : Fields

-- the keys of METADATA_FIELDS
unfoldable pub is_metadata : String → Bool
is_metadata k =
    str_eq k "id"
    || str_eq k "occurred_at"
    || str_eq k "payload"
    || str_eq k "__version__"
    || str_eq k "__event_key__"
    || str_eq k "__event_group__"

abbrev pub entry : String → Value → Fields → Fields
entry k v fs = field (str_key k) v fs

abbrev pub body_fields : Body → Fields
body_fields Body.domain = end
body_fields Body.created = end
body_fields (Body.processed p) = entry "amount" p.amount (
    entry "currency" p.currency
      (entry "webhook_url" p.webhook_url (entry "status" p.status (entry "reason" p.reason end))))

-- `asdict(event)`, in the order of the dataclass fields
abbrev pub asdict : Event → Fields
asdict e = entry "id" (uuid e.id) (
    entry "occurred_at" (datetime e.occurred_at)
      (entry "payload" e.payload (entry "payment_id" e.payment_id (body_fields e.body))))

-- the comprehension over `event_dict.items()`
unfoldable pub serialize_payload : Bool → Fields → Result Fields
unfolding is_metadata
serialize_payload iso end = ok end
serialize_payload iso (field (str_key k) v fs) =
    let rest = serialize_payload iso fs in
    if is_metadata k
    then rest
    else serialize_value iso v >>= λ r. rest >>= λ rs. ok (field (str_key k) r rs)
serialize_payload iso (field (other_key n) v fs) =
    let rest = serialize_payload iso fs in
    serialize_value iso v >>= λ r. rest >>= λ rs. ok (field (other_key n) r rs)

unfoldable pub serialize_event : Bool → Event → Result Envelope
unfolding serialize_payload serialize_value
serialize_event iso e = do
  payload ← serialize_payload iso (asdict e)
  ok (record {
    id = uuid_text e.id;
    occurred_at = serialize_datetime iso e.occurred_at;
    queue = registry_key (class_of e);
    payload = payload;
  })

-- the dictionary that `serialize_event` returns
abbrev pub envelope_dict : Envelope → Value
envelope_dict v = dict (
    entry "id" (text v.id) (
      entry "occurred_at" v.occurred_at
        (entry "queue" (text (str v.queue)) (entry "payload" (dict v.payload) end))))

-- `_parse_event_to_message`: the body of the message, as its reader decodes it
unfoldable pub parse_event_to_message : Event → Result Value
unfolding serialize_event json_value
parse_event_to_message e = serialize_event true e >>= λ v. json_value (envelope_dict v)
