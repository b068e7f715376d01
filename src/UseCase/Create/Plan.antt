-- ===== src/UseCase/Create/Plan.antt =====
-- What a creation stores and publishes if it goes through: the payment, its event, the rows and
-- the message, from the command and the readings that the world gives next.
use mco_louna_task.Base.{◌+◌, false, [], ◌∷◌}
use mco_louna_task.Values.{Value, TaskStatus, Fields, uuid_text, str, dict, text, iso_text}
use mco_louna_task.Domain.ValueObject.{ValueObject}
use mco_louna_task.Domain.Timestamp.{utc}
use mco_louna_task.Domain.Event.{Event, EventClass, registry_key}
use mco_louna_task.Domain.Payment.{Payment, created_event}
use mco_louna_task.Serial.Event.{entry, envelope_dict}
use mco_louna_task.Storage.Payments.{row_of, insert_payment}
use mco_louna_task.Storage.Outbox.{new_row, insert_rows}
use mco_louna_task.Broker.Routes.{payments_exchange, new_payments_q}
use mco_louna_task.Broker.Bus.{delivery}
use mco_louna_task.UseCase.Create.{CreatePaymentCommand, Parts, fresh_payment}
use mco_louna_task.Exec.{World, Database, OutboxRow, Delivery}

abbrev pub checked : {A : Type 0} → A → ValueObject A
checked a = record { value = a; rebuilding = false }

abbrev pub planned_parts : CreatePaymentCommand → Parts
planned_parts c = record {
  amount = checked c.amount;
  currency = c.currency;
  key = checked c.key;
  description = checked c.description;
  metadata = checked c.metadata;
  webhook_url = checked c.webhook_url;
}

-- The payment that `new_payment` makes, before its event is recorded.
abbrev pub drawn_payment : Parts → World → Payment
drawn_payment parts w =
    fresh_payment parts (checked (w.env.uuid4 w.tick)) (checked (utc (w.env.clock (w.tick + 1))))

abbrev pub drawn_event : Parts → World → Event
drawn_event parts w =
    created_event (w.env.uuid4 (w.tick + 1 + 1)) (w.env.clock (w.tick + 1 + 1 + 1))
      (drawn_payment parts w)

-- The first reading of a creation is that of the row locks.
abbrev pub after_lookup : World → World
after_lookup w = record w { tick = w.tick + 1 }

abbrev pub planned_payment : CreatePaymentCommand → World → Payment
planned_payment c w = drawn_payment (planned_parts c) (after_lookup w)

abbrev pub planned_event : CreatePaymentCommand → World → Event
planned_event c w = drawn_event (planned_parts c) (after_lookup w)

abbrev pub created_payload : Payment → Fields
created_payload p = entry "payment_id" (text (uuid_text p.id.value)) mco_louna_task.Values.end

-- The outbox row of a creation event.
abbrev pub event_row : Event → Payment → OutboxRow
event_row e p = new_row (registry_key EventClass.created) e.id e.occurred_at (created_payload p)

abbrev pub store : Payment → Event → Database → Database
store p e d = insert_rows (event_row e p ∷ []) (insert_payment (row_of p) d)

abbrev pub created_db : CreatePaymentCommand → World → Database
created_db c w = store (planned_payment c w) (planned_event c w) w.db

-- The message of a creation event.
abbrev pub created_message : Event → Payment → Value
created_message e p = envelope_dict (record {
  id = uuid_text e.id;
  occurred_at = text (iso_text e.occurred_at);
  queue = registry_key EventClass.created;
  payload = created_payload p;
})

abbrev pub created_delivery : CreatePaymentCommand → World → Delivery
created_delivery c w =
    delivery new_payments_q payments_exchange
      (created_message (planned_event c w) (planned_payment c w))
