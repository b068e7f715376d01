-- ===== src/System/Change.antt =====
-- The transactional outbox as a specification: three changes of the committed database, each of
-- them atomic, and sequences of changes.
use mco_louna_task.Serial.Event.{entry}
use mco_louna_task.Values.{
  Fields, Text, Value, currency_value, decimal_text, end, none_value, Datetime, PaymentStatus,
  TaskStatus, Uuid, status_value, str, text, uuid_text,
}
use mco_louna_task.Storage.Payments.{has_id, violates}
use mco_louna_task.Storage.Outbox.{has_event_id, insert_event, set_status, update_events}
use mco_louna_task.Exec.{Database, OutboxRow, PaymentRow}
use mco_louna_task.Base.{
  find, [], any, false, none, some, subst, sym, true, update_where, ◌++◌, ◌∷◌, ◌≡◌, ◌≢◌, ◌⊎◌,
}

-- The payload that tells of a new payment, and the one that tells of its result.
abbrev pub announcement : Uuid → Fields
announcement u = entry "payment_id" (text (uuid_text u)) end

abbrev pub report : PaymentRow → PaymentStatus → Value → Fields
report row s why = entry "payment_id" (text (uuid_text row.id)) (
    entry "amount" (text (decimal_text row.amount)) (
      entry "currency" (text (str (currency_value row.currency))) (
        entry "webhook_url" (text (str row.webhook_url))
          (entry "status" (text (str (status_value s))) (entry "reason" why end)))))

-- The event row that tells of a new payment, and the one that tells of its result.
abbrev pub Announces : PaymentRow → OutboxRow → Type 0
Announces p e =
    (e.status ≡ TaskStatus.pending) × (e.queue ≡ "payments.new") × (e.payload ≡ announcement p.id)

abbrev pub Reports : PaymentRow → PaymentStatus → OutboxRow → Type 0
Reports row s e =
    (e.status ≡ TaskStatus.pending)
    × (e.queue ≡ "payments.processed")
    × (why : Value) × ((why ≡ none_value) ⊎ ((t : Text) × (why ≡ text t)))
    × (e.payload ≡ report row s why)

-- a payment row takes its final status and its time
abbrev pub finish : PaymentStatus → Datetime → PaymentRow → PaymentRow
finish s at row = record row { status = s; processed_at = some at }

pub data Change (d : Database) (d' : Database) : Type 0 where
  record_payment :
      (p : PaymentRow) (e : OutboxRow)
      → p.status ≡ PaymentStatus.pending
      → p.processed_at ≡ none
      → violates p d ≡ false
      → Announces p e
      → d' ≡ record { payments = d.payments ++ p ∷ []; outbox = insert_event e d.outbox }
      → Change d d'
  settle_payment :
      (u : Uuid) (row : PaymentRow) (s : PaymentStatus) (at : Datetime) (e : OutboxRow)
      → find (has_id u) d.payments ≡ some row
      → row.status ≡ PaymentStatus.pending
      → s ≢ PaymentStatus.pending
      → Reports row s e
      → d' ≡ record {
        payments = update_where (has_id u) (finish s at) d.payments;
        outbox = insert_event e d.outbox;
      }
      → Change d d'
  settle_event :
      (u : Uuid) (s : TaskStatus)
      → any (has_event_id u) d.outbox ≡ true
      → (s ≡ TaskStatus.confirmed) ⊎ (s ≡ TaskStatus.failed)
      → d' ≡ update_events u (set_status s) d
      → Change d d'

pub data Changes (d : Database) : Database → Type 0 where
  unchanged : Changes d d
  then_change : {d' d'' : Database} → Changes d d' → Change d' d'' → Changes d d''

pub Changes-trans : {a b c : Database} → Changes a b → Changes b c → Changes a c
Changes-trans h unchanged = h
Changes-trans h (then_change k s) = then_change (Changes-trans h k) s

pub Changes-of_eq : {a b : Database} → b ≡ a → Changes a b
Changes-of_eq {a} e = subst (λ x. Changes a x) (sym e) unchanged

pub Changes-one : {a b : Database} → Change a b → Changes a b
Changes-one s = then_change unchanged s
