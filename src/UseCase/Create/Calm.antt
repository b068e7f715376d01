-- ===== src/UseCase/Create/Calm.antt =====
-- `CreatePaymentUseCase` when nothing fails: the payment of a valid command is created.
use mco_louna_task.Storage.Numeric.{fits_column, stored_amount}
use mco_louna_task.UseCase.Create.Valid.{IsValid, build_parts_iff}
use mco_louna_task.Broker.Bus.{publish_payment_events}
use mco_louna_task.Values.{Fields, Uuid, uuid_version}
use mco_louna_task.UseCase.Create.Validation.{
  create_amount-Validates, create_description-Validates, create_key-Validates,
  create_metadata-Validates, create_webhook-Validates,
}
use mco_louna_task.UseCase.Create.Plan.{
  created_delivery, created_db, planned_event, planned_parts, planned_payment,
}
use mco_louna_task.UseCase.Create.{
  create_payment, create_response, CreatePaymentCommand, build_parts, create_in_transaction,
  new_payment, service_create, store_events,
}
use mco_louna_task.Storage.Uow.{begin, commit}
use mco_louna_task.Storage.Payments.{add_payment, get_by_key, has_key, row_of, violates, visible}
use mco_louna_task.Storage.Outbox.{add_events}
use mco_louna_task.Serial.Value.{json_fields, json_value}
use mco_louna_task.Serial.Event.{parse_event_to_message, serialize_event}
use mco_louna_task.Exec.{PaymentRow, World}
use mco_louna_task.Errors.{ok}
use mco_louna_task.Domain.Laws.{create_id-ok, now-ok}
use mco_louna_task.Domain.Identity.{is_version_4}
use mco_louna_task.Base.{
  ◌++◌, Bool, List, [], any, arith, false, find, none, refl, true, ◌+◌, ◌∷◌, ◌≡◌,
}
use mco_louna_task.UseCase.Process.Calm.{IsCalm}

build_parts-world : (c : CreatePaymentCommand) (w : World) → (build_parts c w).1 ≡ w
unfolding build_parts
build_parts-world c w = ground (
  arith,
  create_amount-Validates w.env.dev c.amount,
  create_key-Validates w.env.dev c.key,
  create_description-Validates w.env.dev c.description,
  create_metadata-Validates w.env.dev c.metadata,
  create_webhook-Validates w.env.urlparse w.env.url_validate w.env.dev c.webhook_url,
)

no_key :
    (locked : Uuid → Bool) (k : Uuid) (rows : List PaymentRow)
    → any (has_key k) rows ≡ false
    → find (visible locked (has_key k)) rows ≡ none
no_key locked k [] h = refl
no_key locked k (r ∷ rows) h = ground (arith, no_key locked k rows)

abbrev made : CreatePaymentCommand → World → World
made c w = record w {
  tx = created_db c w;
  db = created_db c w;
  tick = w.tick + 1 + 1 + 1 + 1 + 1 + 1;
}

parts_made :
    (c : CreatePaymentCommand) (w : World) (fs : Fields)
    → IsCalm w.env
    → is_version_4 (uuid_version (w.env.uuid4 (w.tick + 1))) ≡ true
    → json_fields c.metadata ≡ ok fs
    → fits_column (stored_amount c.amount) ≡ true
    → violates (row_of (planned_payment c w)) w.db ≡ false
    → create_in_transaction (planned_parts c) (begin w)
      ≡ (ok (planned_event c w ∷ [], planned_payment c w), made c w)
unfolding create_in_transaction service_create get_by_key new_payment add_payment store_events
    add_events serialize_event json_value commit
parts_made c w fs calm v4 stored fits free = ground (
  arith,
  fits,
  no_key (w.env.locked w.tick) c.key w.db.payments (ground arith),
  create_id-ok w.env.dev (w.env.uuid4 (w.tick + 1)) v4,
  now-ok w.env.dev (w.env.clock (w.tick + 1 + 1)),
  calm.commits (w.tick + 1 + 1 + 1 + 1 + 1),
)

abbrev made_world : CreatePaymentCommand → World → World
made_world c w = record w {
  tx = created_db c w;
  db = created_db c w;
  tick = w.tick + 1 + 1 + 1 + 1 + 1 + 1 + 1;
  sent = w.sent ++ created_delivery c w ∷ [];
}

published_made :
    (c : CreatePaymentCommand) (w : World)
    → IsCalm w.env
    → publish_payment_events (planned_event c w ∷ []) (made c w) ≡ (ok tt, made_world c w)
unfolding publish_payment_events parse_event_to_message
published_made c w calm = ground (arith, calm.calls (w.tick + 1 + 1 + 1 + 1 + 1 + 1))

-- When nothing fails, the call for a valid command with a new key returns, and has committed the
-- payment with its event and sent the message: commits and calls of the broker go through, the
-- identifier that is drawn is a version 4 UUID, no payment has it or the key, JSON carries the
-- metadata, and the amount fits its column.
pub create_payment-IsCalm :
    (c : CreatePaymentCommand) (w : World) (fs : Fields)
    → IsCalm w.env
    → IsValid c w
    → is_version_4 (uuid_version (w.env.uuid4 (w.tick + 1))) ≡ true
    → json_fields c.metadata ≡ ok fs
    → fits_column (stored_amount c.amount) ≡ true
    → violates (row_of (planned_payment c w)) w.db ≡ false
    → create_payment c w ≡ (ok (create_response (planned_payment c w)), made_world c w)
unfolding create_payment
create_payment-IsCalm c w fs calm valid v4 stored fits free = ground (
  arith,
  (build_parts_iff c w).1 valid,
  build_parts-world c w,
  parts_made c w fs calm v4 stored fits free,
  published_made c w calm,
)
