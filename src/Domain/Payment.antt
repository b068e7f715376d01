-- ===== src/Domain/Payment.antt =====
-- The aggregate `Payment` (payments/domain/payment.py) over `Aggregate`
-- (shared/domain/aggregate.py). Identifiers and instants that Python draws are arguments.
use mco_louna_task.Base.{
  Bool, true, false, not, ◌&&◌, ◌==◌, ℕ, String, Option, none, some, List, [], ◌∷◌, ◌++◌,
}
use mco_louna_task.Values.{
  Uuid, Decimal, Datetime, Currency, PaymentStatus, Value, str, uuid, decimal, currency, text,
  status, none_value, Fields, dict, end,
}
use mco_louna_task.Errors.{Result, ok, ◌>>=◌, ◌>>◌, raise_if, simple_error, business_rule}
use mco_louna_task.Domain.ValueObject.{ValueObject, dataclass_eq}
use mco_louna_task.Domain.Aggregate.{
  Field, Kind, domain_event, none_type, value_object, bool, enum, single, sequence,
  aggregate_post_init,
}
use mco_louna_task.Domain.Timestamp.{now, utc}
use mco_louna_task.Domain.Event.{Event, Body}

pub record Payment : Type 0 where
  pub id : ValueObject Uuid
  pub amount : ValueObject Decimal
  pub currency : Currency
  pub description : ValueObject String
  pub metadata : ValueObject Fields
  pub key : ValueObject Uuid
  pub webhook_url : ValueObject String
  pub status : PaymentStatus
  pub created_at : ValueObject Datetime
  pub processed_at : Option (ValueObject Datetime)
  pub events : List Event

abbrev pub is_pending : PaymentStatus → Bool
is_pending PaymentStatus.pending = true
is_pending _ = false

abbrev pub is_none : {A : Type 0} → Option A → Bool
is_none none = true
is_none (some _) = false

-- `Aggregate.record_event`
abbrev pub record_event : Event → Payment → Payment
record_event e p = record p { events = p.events ++ e ∷ [] }

-- `Aggregate.pull_events`: the events, and the aggregate without them
unfoldable pub pull_events : Payment → List Event × Payment
pull_events p = (p.events, record p { events = [] })

abbrev pub created_event : Uuid → ℕ → Payment → Event
created_event event_id at p = record {
  id = event_id;
  occurred_at = utc at;
  payload = dict end;
  payment_id = uuid p.id.value;
  body = Body.created;
}

abbrev pub processed_event : Uuid → ℕ → Value → Payment → Event
processed_event event_id at reason p = record {
  id = event_id;
  occurred_at = utc at;
  payload = dict end;
  payment_id = uuid p.id.value;
  body = Body.processed (record {
    amount = decimal p.amount.value;
    currency = currency p.currency;
    webhook_url = text (str p.webhook_url.value);
    status = status p.status;
    reason = reason;
  });
}

abbrev pub event_kinds : List Event → List Kind
event_kinds [] = []
event_kinds (_ ∷ es) = domain_event ∷ event_kinds es

abbrev pub optional_kind : Option (ValueObject Datetime) → Kind
optional_kind none = none_type
optional_kind (some _) = value_object

abbrev pub a_value_object : String → Field
a_value_object name = record { name = name; value = single value_object }

-- `fields(self)`: those of `Aggregate` first
unfoldable pub payment_fields : Payment → List Field
payment_fields p =
    a_value_object "id"
    ∷ record { name = "_events"; value = sequence (event_kinds p.events) }
    ∷ record { name = "_rebuilding"; value = single bool }
    ∷ a_value_object "amount"
    ∷ record { name = "currency"; value = single enum }
    ∷ a_value_object "description"
    ∷ a_value_object "metadata"
    ∷ a_value_object "key"
    ∷ a_value_object "webhook_url"
    ∷ record { name = "status"; value = single enum }
    ∷ a_value_object "created_at"
    ∷ record { name = "processed_at"; value = single (optional_kind p.processed_at) }
    ∷ []

-- `Payment.__post_init__` outside a rebuild
unfoldable pub post_init : Bool → Uuid → ℕ → Payment → Result Payment
unfolding aggregate_post_init payment_fields
post_init dev event_id at p = do
  aggregate_post_init dev false (payment_fields p)
  raise_if (not (is_pending p.status) && is_none p.processed_at)
      (simple_error business_rule "Cannot persist processed payment without processing timestamp")
  ok (record_event (created_event event_id at p) p)

unfoldable pub ensure_pending : Payment → Result (Unit {0})
ensure_pending p =
    raise_if (not (is_pending p.status)) (simple_error business_rule "Already processed")

-- `dev`, the instants of the two clock readings, and the identifier of the event come first.
unfoldable pub mark_as_succeeded : Bool → ℕ → Uuid → ℕ → Payment → Result Payment
unfolding ensure_pending
mark_as_succeeded dev at event_id event_at p = do
  ensure_pending p
  processed ← now dev at
  let q = record p { status = PaymentStatus.confirmed; processed_at = some processed }
  ok (record_event (processed_event event_id event_at none_value q) q)

unfoldable pub mark_as_failed : Bool → ℕ → Uuid → ℕ → String → Payment → Result Payment
unfolding ensure_pending
mark_as_failed dev at event_id event_at reason p = do
  ensure_pending p
  processed ← now dev at
  let q = record p { status = PaymentStatus.failed; processed_at = some processed }
  ok (record_event (processed_event event_id event_at (text (str reason)) q) q)

-- `Payment.rebuild`: `__post_init__` does nothing under `_rebuilding`
abbrev events_or_empty : Option (List Event) → List Event
events_or_empty none = []
events_or_empty (some es) = es

unfoldable pub rebuild_payment :
    ValueObject Uuid
    → ValueObject Decimal
    → Currency
    → ValueObject String
    → ValueObject Fields
    → ValueObject Uuid
    → ValueObject String
    → PaymentStatus
    → ValueObject Datetime
    → Option (ValueObject Datetime)
    → Option (List Event)
    → Payment
rebuild_payment id amount cur description metadata key webhook_url st created_at processed_at
      events =
    record {
      id = id;
      amount = amount;
      currency = cur;
      description = description;
      metadata = metadata;
      key = key;
      webhook_url = webhook_url;
      status = st;
      created_at = created_at;
      processed_at = processed_at;
      events = events_or_empty events;
    }

-- `Aggregate.__eq__` between two payments
unfoldable pub payment_eq : Payment → Payment → Bool
unfolding dataclass_eq
payment_eq a b = dataclass_eq ◌==◌ a.id b.id
