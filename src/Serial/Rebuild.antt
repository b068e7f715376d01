-- ===== src/Serial/Rebuild.antt =====
-- `rebuild_event` (rebuilder.py), and the two schemas by which the consumers read a message
-- (payments/presentation/ampq/api/v1/schemas/payment.py and notify.py). How Python reads a text
-- that the service did not print itself is a parameter, `Readers`.
use mco_louna_task.Base.{
  Bool, true, false, ◌&&◌, ◌||◌, not, String, str_eq, Option, none, some, if◌then◌else◌,
}
use mco_louna_task.Values.{
  Uuid, Decimal, Datetime, Currency, PaymentStatus, Text, Value, Fields, none_value, uuid, decimal,
  currency, status, text, dict, end, field, str_key, other_key, str, uuid_text, decimal_text,
  iso_text,
}
use mco_louna_task.Errors.{Result, ok, err, ◌>>=◌, ◌>>◌, raise_if, value_error, type_error}
use mco_louna_task.Domain.Event.{Event, EventClass, Body, event_registry}

unfoldable pub lookup : String → Fields → Option Value
lookup k end = none
lookup k (field (str_key j) v fs) = let rest = lookup k fs in if str_eq j k then some v else rest
lookup k (field (other_key n) v fs) = lookup k fs

-- the keyword arguments of the constructors, besides `id` and `occurred_at`
abbrev pub is_base_field : String → Bool
is_base_field k = str_eq k "payload" || str_eq k "payment_id"

abbrev pub is_field : EventClass → String → Bool
is_field EventClass.processed k =
    is_base_field k
    || str_eq k "amount"
    || str_eq k "currency"
    || str_eq k "webhook_url"
    || str_eq k "status"
    || str_eq k "reason"
is_field EventClass.domain k = is_base_field k
is_field EventClass.created k = is_base_field k

unfoldable pub takes : (String → Bool) → Fields → Bool
takes known end = true
takes known (field (str_key k) v fs) = known k && takes known fs
takes known (field (other_key n) v fs) = false

unfoldable pub required : String → Fields → Result Value
required k kwargs = elim (lookup k kwargs) [ none ↦ err type_error | some v ↦ ok v ]

unfoldable pub optional : String → Value → Fields → Value
optional k default kwargs = elim (lookup k kwargs) [ none ↦ default | some v ↦ v ]

unfoldable pub construct_body : EventClass → Fields → Result Body
construct_body EventClass.domain kwargs = ok Body.domain
construct_body EventClass.created kwargs = ok Body.created
construct_body EventClass.processed kwargs = do
  amount ← required "amount" kwargs
  cur ← required "currency" kwargs
  webhook_url ← required "webhook_url" kwargs
  st ← required "status" kwargs
  ok (
      Body.processed (record {
        amount = amount;
        currency = cur;
        webhook_url = webhook_url;
        status = st;
        reason = optional "reason" none_value kwargs;
      }))

-- `event_cls(id=..., occurred_at=..., **payload)`
unfoldable pub construct : EventClass → Uuid → Datetime → Fields → Result Event
unfolding construct_body takes required optional lookup
construct cls id occurred_at kwargs = do
  raise_if (not (takes (is_field cls) kwargs)) type_error
  payment_id ← required "payment_id" kwargs
  body ← construct_body cls kwargs
  ok (record {
    id = id;
    occurred_at = occurred_at;
    payload = optional "payload" (dict end) kwargs;
    payment_id = payment_id;
    body = body;
  })

-- `except TypeError as e: raise ValueError(...) from e`
abbrev pub type_to_value_error : {A : Type 0} → Result A → Result A
type_to_value_error (ok a) = ok a
type_to_value_error (err type_error) = err value_error
type_to_value_error (err e) = err e

unfoldable pub rebuild_event : Uuid → Datetime → String → Fields → Result Event
unfolding construct event_registry
rebuild_event id occurred_at queue payload = elim (event_registry queue) [
  | none ↦ err value_error
  | some cls ↦ type_to_value_error (construct cls id occurred_at payload)
]

pub record Readers : Type 0 where
  pub read_uuid : Text → Option Uuid
  pub read_decimal : Text → Option Decimal
  pub read_iso : Text → Option Datetime

abbrev pub or_value_error : {A : Type 0} → Option A → Result A
or_value_error none = err value_error
or_value_error (some a) = ok a

-- `UUID(text)`, `Decimal(text)` and `datetime.fromisoformat(text)`: a text that `str` or
-- `isoformat` printed gives its value back
unfoldable pub parse_uuid : Readers → Text → Result Uuid
parse_uuid r (uuid_text u) = ok u
parse_uuid r t = or_value_error (r.read_uuid t)

unfoldable pub parse_decimal : Readers → Text → Result Decimal
parse_decimal r (decimal_text d) = ok d
parse_decimal r t = or_value_error (r.read_decimal t)

unfoldable pub parse_iso : Readers → Text → Result Datetime
parse_iso r (iso_text d) = ok d
parse_iso r t = or_value_error (r.read_iso t)

-- `Currency(text)` and `PaymentStatus(text)`
unfoldable pub parse_currency : Text → Result Currency
parse_currency (str s) =
    if str_eq s "RUB"
    then ok Currency.rub
    else if str_eq s "USD"
    then ok Currency.usd
    else if str_eq s "EUR"
    then ok Currency.eur
    else err value_error
parse_currency _ = err value_error

unfoldable pub parse_status : Text → Result PaymentStatus
parse_status (str s) =
    if str_eq s "PENDING"
    then ok PaymentStatus.pending
    else if str_eq s "CONFIRMED"
    then ok PaymentStatus.confirmed
    else if str_eq s "FAILED"
    then ok PaymentStatus.failed
    else err value_error
parse_status _ = err value_error

-- A `str` field of a pydantic model; what is missing or is no text is a validation error, which
-- is a `ValueError`.
abbrev pub as_text : Option Value → Result Text
as_text (some (text t)) = ok t
as_text _ = err value_error

-- `reason: str | None = None`
abbrev pub as_optional_text : Option Value → Result Value
as_optional_text none = ok none_value
as_optional_text (some none_value) = ok none_value
as_optional_text (some (text t)) = ok (text t)
as_optional_text _ = err value_error

abbrev pub as_dict : Option Value → Result Fields
as_dict (some (dict fs)) = ok fs
as_dict _ = err value_error

-- `NewPaymentEvent.model_validate_json`, then `new_pay_to_domain`
unfoldable pub decode_new_payment : Readers → Value → Result Event
unfolding lookup parse_uuid parse_iso
decode_new_payment r body = do
  data' ← as_dict (some body)
  id ← as_text (lookup "id" data')
  occurred_at ← as_text (lookup "occurred_at" data')
  queue ← as_text (lookup "queue" data')
  payload ← as_dict (lookup "payload" data')
  payment_id ← as_text (lookup "payment_id" payload)
  id' ← parse_uuid r id
  occurred_at' ← parse_iso r occurred_at
  payment_id' ← parse_uuid r payment_id
  ok (record {
    id = id';
    occurred_at = occurred_at';
    payload = dict end;
    payment_id = uuid payment_id';
    body = Body.created;
  })

-- `NotifyEvent.model_validate_json`, then `notify_event_to_domain`
unfoldable pub decode_notify : Readers → Value → Result Event
unfolding lookup parse_uuid parse_decimal parse_iso parse_currency parse_status
decode_notify r body = do
  data' ← as_dict (some body)
  id ← as_text (lookup "id" data')
  occurred_at ← as_text (lookup "occurred_at" data')
  queue ← as_text (lookup "queue" data')
  payload ← as_dict (lookup "payload" data')
  payment_id ← as_text (lookup "payment_id" payload)
  amount ← as_text (lookup "amount" payload)
  cur ← as_text (lookup "currency" payload)
  webhook_url ← as_text (lookup "webhook_url" payload)
  st ← as_text (lookup "status" payload)
  reason ← as_optional_text (lookup "reason" payload)
  payment_id' ← parse_uuid r payment_id
  amount' ← parse_decimal r amount
  cur' ← parse_currency cur
  st' ← parse_status st
  id' ← parse_uuid r id
  occurred_at' ← parse_iso r occurred_at
  ok (record {
    id = id';
    occurred_at = occurred_at';
    payload = dict end;
    payment_id = uuid payment_id';
    body = Body.processed (record {
      amount = decimal amount';
      currency = currency cur';
      webhook_url = text webhook_url;
      status = status st';
      reason = reason;
    });
  })
