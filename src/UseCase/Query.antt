-- ===== src/UseCase/Query.antt =====
-- `GetPayment` (application/handlers/queries/get.py) and `FetchPendingTasks` (pendings.py). In
-- the response each metadata value is its `str`, which is a parameter.
use mco_louna_task.Base.{String, Option, none, some}
use mco_louna_task.Values.{
  Uuid, Decimal, Datetime, Currency, PaymentStatus, Text, Value, Fields, uuid, text, end, field,
}
use mco_louna_task.Domain.ValueObject.{ValueObject}
use mco_louna_task.Domain.Identity.{create_payment_id}
use mco_louna_task.Domain.Payment.{Payment}
use mco_louna_task.Storage.Payments.{get_by_id}
use mco_louna_task.Storage.Outbox.{get_pendings}
use mco_louna_task.Storage.Uow.{with_uow}
use mco_louna_task.Broker.Bus.{publish_payment_events}
use mco_louna_task.Exec.{Action, pure, lift, ask, ◌>>=◌}

pub record GetPaymentQueryResponse : Type 0 where
  pub payment_id : Uuid
  pub amount : Decimal
  pub currency : Currency
  pub description : String
  pub key : Uuid
  pub metadata : Fields
  pub status : PaymentStatus
  pub created_at : Datetime
  pub processed_at : Option Datetime

-- `{key: str(value) for key, value in ...}`
unfoldable pub stringify : (Value → Text) → Fields → Fields
stringify to_str end = end
stringify to_str (field k v fs) = field k (text (to_str v)) (stringify to_str fs)

abbrev pub timestamp_value : Option (ValueObject Datetime) → Option Datetime
timestamp_value none = none
timestamp_value (some t) = some t.value

-- `GetPaymentQueryResponse.from_domain`
unfoldable pub query_response : (Value → Text) → Payment → GetPaymentQueryResponse
query_response to_str p = record {
  payment_id = p.id.value;
  amount = p.amount.value;
  currency = p.currency;
  description = p.description.value;
  key = p.key.value;
  metadata = stringify to_str p.metadata.value;
  status = p.status;
  created_at = p.created_at.value;
  processed_at = timestamp_value p.processed_at;
}

-- `GetPayment.__call__`
unfoldable pub get_payment : (Value → Text) → Uuid → Action GetPaymentQueryResponse
get_payment to_str query_id = do
  dev ← ask (λ e. e.dev)
  id ← lift (create_payment_id dev (uuid query_id))
  payment ← with_uow (get_by_id id.value)
  pure (query_response to_str payment)

-- the body of `async with uow`: publication runs inside it, on the first 50 rows
unfoldable pub publish_pendings : Action (Unit {0})
publish_pendings = do events ← get_pendings 50 0; publish_payment_events events

-- `FetchPendingTasks.__call__`
unfoldable pub fetch_pending_tasks : Action (Unit {0})
fetch_pending_tasks = with_uow publish_pendings
