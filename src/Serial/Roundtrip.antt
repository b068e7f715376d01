-- ===== src/Serial/Roundtrip.antt =====
-- What the readers of events get back: the consumers from a message, and the poll of the outbox
-- from a row.
use mco_louna_task.Base.{ℕ, false, Option, none, some, ◌≡◌, refl}
use mco_louna_task.Values.{
  Uuid, Currency, PaymentStatus, Text, Value, none_value, text, str, currency_value, status_value,
}
use mco_louna_task.Errors.{Result, ok, ◌>>=◌}
use mco_louna_task.Domain.Event.{Event}
use mco_louna_task.Domain.Payment.{Payment, created_event, processed_event}
use mco_louna_task.Serial.Value.{json_fields}
use mco_louna_task.Serial.Event.{serialize_event, parse_event_to_message}
use mco_louna_task.Serial.Rebuild.{
  Readers, rebuild_event, decode_new_payment, decode_notify, parse_currency, parse_status,
}

pub parse_currency-currency_value : (c : Currency) → parse_currency (str (currency_value c)) ≡ ok c
unfolding parse_currency
parse_currency-currency_value Currency.rub = refl
parse_currency-currency_value Currency.usd = refl
parse_currency-currency_value Currency.eur = refl

parse_status-status_value : (s : PaymentStatus) → parse_status (str (status_value s)) ≡ ok s
unfolding parse_status
parse_status-status_value PaymentStatus.pending = refl
parse_status-status_value PaymentStatus.confirmed = refl
parse_status-status_value PaymentStatus.failed = refl

-- The failure reason of an event: absent, or a text.
abbrev pub reason_value : Option Text → Value
reason_value none = none_value
reason_value (some t) = text t

decode-created :
    (r : Readers) (id : Uuid) (at : ℕ) (p : Payment)
    → (parse_event_to_message (created_event id at p) >>= decode_new_payment r)
      ≡ ok (created_event id at p)
unfolding parse_event_to_message decode_new_payment
decode-created r id at p = refl

decode-processed :
    (r : Readers) (id : Uuid) (at : ℕ) (why : Option Text) (p : Payment)
    → (parse_event_to_message (processed_event id at (reason_value why) p) >>= decode_notify r)
      ≡ ok (processed_event id at (reason_value why) p)
unfolding parse_event_to_message decode_notify
decode-processed r id at none p = rw (parse_currency-currency_value, parse_status-status_value)
decode-processed r id at (some t) p = rw (parse_currency-currency_value, parse_status-status_value)

-- The consumers get back the events that were published: that of new payments decodes the message of
-- a creation event to that event, and the notifier decodes the message of a processing event to
-- that event, whatever the status, the currency and the reason.
pub decode-published :
    (r : Readers) (id : Uuid) (at : ℕ) (why : Option Text) (p : Payment)
    → ((parse_event_to_message (created_event id at p) >>= decode_new_payment r)
        ≡ ok (created_event id at p))
      × ((parse_event_to_message (processed_event id at (reason_value why) p) >>= decode_notify r)
          ≡ ok (processed_event id at (reason_value why) p))
decode-published r id at why p = (decode-created r id at p, decode-processed r id at why p)

-- The row that `outbox.add` stores for an event, read back by `rebuild_event`.
abbrev pub restore : Event → Result Event
restore e = do
  envelope ← serialize_event false e
  payload ← json_fields envelope.payload
  rebuild_event e.id e.occurred_at envelope.queue payload

republish-created :
    (id : Uuid) (at : ℕ) (p : Payment)
    → (restore (created_event id at p) >>= parse_event_to_message)
      ≡ parse_event_to_message (created_event id at p)
unfolding parse_event_to_message rebuild_event
republish-created id at p = refl

republish-processed :
    (id : Uuid) (at : ℕ) (why : Option Text) (p : Payment)
    → (restore (processed_event id at (reason_value why) p) >>= parse_event_to_message)
      ≡ parse_event_to_message (processed_event id at (reason_value why) p)
unfolding parse_event_to_message rebuild_event
republish-processed id at none p = refl
republish-processed id at (some t) p = refl

-- an event that the service makes
pub data IsServiceEvent : Event → Type 0 where
  of_creation : (id : Uuid) (at : ℕ) (p : Payment) → IsServiceEvent (created_event id at p)
  of_processing :
      (id : Uuid) (at : ℕ) (why : Option Text) (p : Payment)
      → IsServiceEvent (processed_event id at (reason_value why) p)

-- The event that is rebuilt from the outbox row of an event of the service is published as the same
-- message, whatever the status, the currency and the reason.
pub republish :
    (e : Event)
    → IsServiceEvent e
    → (restore e >>= parse_event_to_message) ≡ parse_event_to_message e
republish e (of_creation id at p) = republish-created id at p
republish e (of_processing id at why p) = republish-processed id at why p
