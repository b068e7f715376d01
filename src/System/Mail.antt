-- ===== src/System/Mail.antt =====
-- The message of an outbox row: every event that the service stores can be rebuilt from its row and
-- published.
use mco_louna_task.System.Rows.{insert_event-All, update_where-All}
use mco_louna_task.Values.{
  PaymentStatus, TaskStatus, Text, Uuid, Value, iso_text, none_value, text, uuid_text,
}
use mco_louna_task.Storage.Outbox.{has_event_id, rebuild_row, set_status}
use mco_louna_task.Serial.Rebuild.{rebuild_event}
use mco_louna_task.Serial.Event.{envelope_dict, parse_event_to_message}
use mco_louna_task.Exec.{Database, Delivery, OutboxRow, PaymentRow}
use mco_louna_task.Errors.{bind, ok}
use mco_louna_task.Broker.Routes.{
  exchange_registry, queue_registry, Queue, new_payments_q, notify_payments_q, payments_exchange,
}
use mco_louna_task.Broker.Bus.{delivery}
use mco_louna_task.Base.{All, if◌then◌else◌, inl, inr, refl, str_eq, ◌≡◌, ◌⊎◌}
use mco_louna_task.System.Change.{
  record_payment, settle_event, settle_payment, then_change, unchanged, Changes, announcement,
  report,
}
use mco_louna_task.Broker.Order.{delivery_of}

-- the message that tells what a row tells
abbrev pub mail_to : Queue → OutboxRow → Delivery
mail_to q row = delivery q payments_exchange (
    envelope_dict (record {
      id = uuid_text row.id;
      occurred_at = text (iso_text row.occurred_at);
      queue = row.queue;
      payload = row.payload;
    }))

unfoldable pub mail : OutboxRow → Delivery
mail row =
    mail_to (if str_eq row.queue "payments.new" then new_payments_q else notify_payments_q) row

-- a row of one of the two kinds that the service stores
pub data IsMailable (e : OutboxRow) : Type 0 where
  announces : (u : Uuid) → e.queue ≡ "payments.new" → e.payload ≡ announcement u → IsMailable e
  reports :
      (row : PaymentRow) (s : PaymentStatus) (why : Value)
      → e.queue ≡ "payments.processed"
      → (why ≡ none_value) ⊎ ((t : Text) × (why ≡ text t))
      → e.payload ≡ report row s why
      → IsMailable e

set_status-IsMailable :
    (s : TaskStatus) (e : OutboxRow) → IsMailable e → IsMailable (set_status s e)
set_status-IsMailable s e (announces u q p) = announces u q p
set_status-IsMailable s e (reports row t why q r p) = reports row t why q r p

pub Changes-IsMailable :
    (d d' : Database) → Changes d d' → All IsMailable d.outbox → All IsMailable d'.outbox
Changes-IsMailable d d' unchanged h = h
Changes-IsMailable d d' (then_change {d' = b} k (record_payment p e _ _ free (_, q, tells) made))
      h =
    rw made
      (insert_event-All IsMailable e b.outbox (announces p.id q tells) (Changes-IsMailable d b k h))
Changes-IsMailable d d'
      (then_change {d' = b} k
        (settle_payment v row s at e found fresh final (_, q, why, is, tells) made))
      h =
    rw made (
      insert_event-All IsMailable e b.outbox (reports row s why q is tells)
        (Changes-IsMailable d b k h))
Changes-IsMailable d d' (then_change {d' = b} k (settle_event v s found final made)) h = rw made (
    update_where-All IsMailable (has_event_id v) (set_status s) b.outbox (set_status-IsMailable s)
      (Changes-IsMailable d b k h))

-- What the poll makes of the row is its message.
abbrev pub IsSent : OutboxRow → Type 0
IsSent row = bind (rebuild_row row) delivery_of ≡ ok (mail row)

pub mailable-IsSent : (row : OutboxRow) → IsMailable row → IsSent row
unfolding rebuild_event parse_event_to_message mail rebuild_row queue_registry exchange_registry
mailable-IsSent row (announces u q p) = rw (q, p) refl
mailable-IsSent row (reports old s why q (inl is) p) = rw (q, p, is) refl
mailable-IsSent row (reports old s why q (inr (t, is)) p) = rw (q, p, is) refl
