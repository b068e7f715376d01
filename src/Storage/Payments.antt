-- ===== src/Storage/Payments.antt =====
-- `SqlAlchemyPaymentRepository` (infrastructure/database/payments/repository.py). A locking read
-- skips the rows that other transactions hold (`skip_locked=True`).
use mco_louna_task.Storage.Numeric.{fits_column, stored_amount}
use mco_louna_task.Serial.Value.{json_fields}
use mco_louna_task.Base.{
  Bool, not, ◌&&◌, ◌||◌, Option, none, some, [], ◌∷◌, ◌++◌, ◌==◌, find, any, update_where,
}
use mathlib.Core.Option
use mco_louna_task.Values.{Fields, end, Uuid, Datetime, str, cat, uuid_text}
use mco_louna_task.Errors.{
  Result, database_error, err, ok, raise_domain, exists, not_found, attribute_error,
  integrity_error,
}
use mco_louna_task.Domain.ValueObject.{ValueObject, rebuild}
use mco_louna_task.Domain.Payment.{Payment, rebuild_payment}
use mco_louna_task.Exec.{
  lift, PaymentRow, Database, Action, pure, raise, draw, query, execute, raise_when, ◌>>=◌, ◌>>◌,
}

abbrev pub has_id : Uuid → PaymentRow → Bool
has_id u row = row.id == u

abbrev pub has_key : Uuid → PaymentRow → Bool
has_key k row = row.idempotency_key == k

abbrev pub rebuild_timestamp : Option Datetime → Option (ValueObject Datetime)
rebuild_timestamp none = none
rebuild_timestamp (some d) = some (rebuild d)

-- `_to_domain`
unfoldable pub to_domain : PaymentRow → Payment
unfolding rebuild_payment
to_domain row =
    rebuild_payment (rebuild row.id) (rebuild row.amount) row.currency (rebuild row.description)
      (rebuild row.metadata) (rebuild row.idempotency_key) (rebuild row.webhook_url) row.status
      (rebuild row.created_at) (rebuild_timestamp row.processed_at) none

-- the JSON column `metadata`: what it gives back, and the error of a value that JSON cannot carry
abbrev pub or_no_fields : Result Fields → Fields
or_no_fields (ok fs) = fs
or_no_fields (err _) = end

abbrev pub stored_metadata : Fields → Fields
stored_metadata fs = or_no_fields (json_fields fs)

abbrev pub or_database_error : {A : Type 0} → Result A → Result (Unit {0})
or_database_error (ok _) = ok tt
or_database_error (err _) = err database_error

-- the values of the INSERT; `processed_at` is not among them
abbrev pub row_of : Payment → PaymentRow
row_of p = record {
  id = p.id.value;
  amount = stored_amount p.amount.value;
  currency = p.currency;
  description = p.description.value;
  metadata = stored_metadata p.metadata.value;
  status = p.status;
  idempotency_key = p.key.value;
  created_at = p.created_at.value;
  processed_at = none;
  webhook_url = p.webhook_url.value;
}

abbrev pub insert_payment : PaymentRow → Database → Database
insert_payment row d = record d { payments = d.payments ++ row ∷ [] }

-- the primary key and the constraint `uq_payments_idempotency_key`
abbrev pub violates : PaymentRow → Database → Bool
violates row d = any (has_id row.id) d.payments || any (has_key row.idempotency_key) d.payments

unfoldable pub add_payment : Payment → Action (Unit {0})
add_payment p = do
  existing ← query (λ d. any (has_key p.key.value) d.payments)
  raise_when existing (
      raise_domain exists
        (cat (str "Payment already exists with idempotency_key ") (uuid_text p.key.value)) none)
  lift (or_database_error (json_fields p.metadata.value))
  raise_when (not (fits_column (row_of p).amount)) database_error
  clash ← query (violates (row_of p))
  raise_when clash integrity_error
  execute (insert_payment (row_of p))

abbrev pub settle_row : Payment → Datetime → PaymentRow → PaymentRow
settle_row p at row = record row { status = p.status; processed_at = some at }

abbrev pub update_payment : Payment → Datetime → Database → Database
update_payment p at d = record d {
  payments = update_where (has_id p.id.value) (settle_row p at) d.payments;
}

-- `payment.processed_at.value`
abbrev pub processed_at_value : Option (ValueObject Datetime) → Action Datetime
processed_at_value none = raise attribute_error
processed_at_value (some t) = pure t.value

unfoldable pub update : Payment → Action (Unit {0})
update p = do
  at ← processed_at_value p.processed_at
  found ← query (λ d. any (has_id p.id.value) d.payments)
  execute (update_payment p at)
  raise_when (not found) (
      raise_domain not_found
        (cat (str "Cannot update: Payment ") (cat (uuid_text p.id.value) (str " not found"))) none)

abbrev pub visible : (Uuid → Bool) → (PaymentRow → Bool) → PaymentRow → Bool
visible locked p row = p row && not (locked row.id)

abbrev pub found_or_raise : Uuid → Option PaymentRow → Action Payment
found_or_raise u none =
    raise (raise_domain not_found (cat (str "Payment not found: ") (uuid_text u)) none)
found_or_raise u (some row) = pure (to_domain row)

unfoldable pub get_by_id : Uuid → Action Payment
unfolding to_domain
get_by_id u = do
  locked ← draw (λ e. e.locked)
  row ← query (λ d. find (visible locked (has_id u)) d.payments)
  found_or_raise u row

unfoldable pub get_by_key : Uuid → Action (Option Payment)
unfolding to_domain
get_by_key k = do
  locked ← draw (λ e. e.locked)
  row ← query (λ d. find (visible locked (has_key k)) d.payments)
  pure (Option.map to_domain row)
