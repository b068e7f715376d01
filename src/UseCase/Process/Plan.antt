-- ===== src/UseCase/Process/Plan.antt =====
-- What processing a payment row stores and publishes if it goes through, from the readings that
-- the world gives after the row was read.
use mco_louna_task.Values.{
  Fields, PaymentStatus, Value, currency_value, decimal_text, end, iso_text, none_value,
  status_value, str, text, uuid_text,
}
use mco_louna_task.UseCase.Create.Plan.{checked}
use mco_louna_task.Storage.Payments.{has_id, to_domain}
use mco_louna_task.Storage.Outbox.{insert_rows, new_row}
use mco_louna_task.Serial.Event.{entry, envelope_dict}
use mco_louna_task.Exec.{Database, Delivery, OutboxRow, PaymentRow, World}
use mco_louna_task.Domain.Timestamp.{utc}
use mco_louna_task.Domain.Payment.{Payment, processed_event}
use mco_louna_task.Domain.Event.{Event, EventClass, registry_key}
use mco_louna_task.Broker.Routes.{notify_payments_q, payments_exchange}
use mco_louna_task.Broker.Bus.{delivery}
use mco_louna_task.Base.{Bool, [], false, some, true, update_where, ◌+◌, ◌∷◌}

abbrev pub chosen_status : Bool → PaymentStatus
chosen_status true = PaymentStatus.confirmed
chosen_status false = PaymentStatus.failed

abbrev pub chosen_reason : Bool → Value
chosen_reason true = none_value
chosen_reason false = text (str "simulated error")

abbrev pub settled_payment : PaymentRow → World → Payment
settled_payment row w =
    let p = to_domain row in
    record p {
      status = chosen_status (w.env.success w.tick);
      processed_at = some (checked (utc (w.env.clock (w.tick + 1))));
    }

abbrev pub settled_event : PaymentRow → World → Event
settled_event row w =
    processed_event (w.env.uuid4 (w.tick + 1 + 1)) (w.env.clock (w.tick + 1 + 1 + 1))
      (chosen_reason (w.env.success w.tick)) (settled_payment row w)

abbrev pub settled_payload : PaymentRow → World → Fields
settled_payload row w = entry "payment_id" (text (uuid_text row.id)) (
    entry "amount" (text (decimal_text row.amount)) (
      entry "currency" (text (str (currency_value row.currency))) (
        entry "webhook_url" (text (str row.webhook_url)) (
          entry "status" (text (str (status_value (chosen_status (w.env.success w.tick)))))
            (entry "reason" (chosen_reason (w.env.success w.tick)) end)))))

abbrev pub settled_event_row : PaymentRow → World → OutboxRow
settled_event_row row w =
    new_row (registry_key EventClass.processed) (w.env.uuid4 (w.tick + 1 + 1))
      (utc (w.env.clock (w.tick + 1 + 1 + 1))) (settled_payload row w)

-- the change of the row itself
abbrev pub settle : World → PaymentRow → PaymentRow
settle w row = record row {
  status = chosen_status (w.env.success w.tick);
  processed_at = some (utc (w.env.clock (w.tick + 1)));
}

abbrev pub settled_db : PaymentRow → World → Database → Database
settled_db row w d =
    insert_rows (settled_event_row row w ∷ [])
      (record d { payments = update_where (has_id row.id) (settle w) d.payments })

abbrev pub settled_delivery : PaymentRow → World → Delivery
settled_delivery row w = delivery notify_payments_q payments_exchange (
    envelope_dict (record {
      id = uuid_text (w.env.uuid4 (w.tick + 1 + 1));
      occurred_at = text (iso_text (utc (w.env.clock (w.tick + 1 + 1 + 1))));
      queue = registry_key EventClass.processed;
      payload = settled_payload row w;
    }))
