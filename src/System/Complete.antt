-- ===== src/System/Complete.antt =====
-- From the request to the webhook.
use mco_louna_task.Storage.Numeric.{fits_column, stored_amount}
use mco_louna_task.Values.{Fields, TaskStatus, Text, Value, uuid_version}
use mco_louna_task.UseCase.Process.Plan.{settle, settled_delivery}
use mco_louna_task.UseCase.Process.Calm.{IsCalm}
use mco_louna_task.UseCase.Create.Valid.{IsValid}
use mco_louna_task.UseCase.Create.Plan.{created_delivery, planned_payment}
use mco_louna_task.UseCase.Create.Calm.{create_payment-IsCalm}
use mco_louna_task.UseCase.Create.{CreatePaymentCommand, create_payment, create_response}
use mco_louna_task.System.Notified.{IsAnswered}
use mco_louna_task.System.Lifecycle.{
  created_id, created_row, message_of, notifies_result, processed_db, processes_created,
  result-IsClaimable, result_id, result_payload, result_world,
}
use mco_louna_task.Storage.Payments.{has_id, violates}
use mco_louna_task.Storage.Outbox.{has_event_id, set_status, update_events}
use mco_louna_task.Serial.Value.{json_fields}
use mco_louna_task.Notifier.Sender.{is_http}
use mco_louna_task.Notifier.Attempts.{post_of}
use mco_louna_task.Exec.{World}
use mco_louna_task.Errors.{ok}
use mco_louna_task.Domain.Identity.{is_version_4}
use mco_louna_task.Consumer.Process.{handle_payment_processing}
use mco_louna_task.Consumer.Notify.{handle_notify_client}
use mco_louna_task.Base.{[], any, ap, false, find, some, true, ◌++◌, ◌+◌, ◌∙◌, ◌∷◌, ◌≡◌, ◌≢◌}

-- A valid request for a payment completes when nothing fails (commits, calls of the broker and the
-- client's answers go through, the circuit breaker is closed, no other transaction holds a row,
-- JSON carries the metadata, the amount fits its column, the webhook has an HTTP scheme, no payment
-- has the identifier or the key, the drawn identifier is a version 4 UUID, and those of the two
-- events are new and differ). The call returns, and its message is sent; the consumer that gets
-- this message returns, and the message of the result is sent; the notifier that gets that one
-- returns. In the end the payment has its result, the client was told of it in one request, and the
-- two events are confirmed. The three parts run in worlds of their own, which share the committed
-- state.
pub create_payment-completes :
    (to_str : Value → Text) (c : CreatePaymentCommand) (fs : Fields) (w v z : World)
    → IsCalm w.env
    → IsCalm v.env
    → IsCalm z.env
    → IsAnswered z.env
    → IsValid c w
    → json_fields c.metadata ≡ ok fs
    → fits_column (stored_amount c.amount) ≡ true
    → is_http c.webhook_url ≡ true
    → is_version_4 (uuid_version (w.env.uuid4 (w.tick + 1))) ≡ true
    → violates (created_row c w) w.db ≡ false
    → any (has_event_id (created_id c w)) w.db.outbox ≡ false
    → any (has_event_id (result_id (created_row c w) v)) w.db.outbox ≡ false
    → created_id c w ≢ result_id (created_row c w) v
    → v.db ≡ (create_payment c w).1.db
    → z.db ≡ (handle_payment_processing (message_of (created_delivery c w)) v).1.db
    → let row = created_row c w in
      let result = settled_delivery row (result_world v) in
      let (reply, w') = create_payment c w in
      let (r, v') = handle_payment_processing (message_of (created_delivery c w)) v in
      let (q, z') = handle_notify_client to_str (message_of result) z in
      (reply ≡ ok (create_response (planned_payment c w)))
      × (w'.sent ≡ w.sent ++ created_delivery c w ∷ [])
      × (r ≡ ok tt)
      × (v'.sent ≡ v.sent ++ result ∷ [])
      × (q ≡ ok tt)
      × (z'.posts ≡ z.posts ++ post_of c.webhook_url (result_payload row (result_world v)) 5 ∷ [])
      × (find (has_id row.id) z'.db.payments ≡ some (settle (result_world v) row))
      × (z'.db
          ≡ update_events (result_id row v) (set_status TaskStatus.confirmed) (processed_db c w v))
create_payment-completes to_str c fs w v z calm_w calm_v calm_z answered valid json fits http v4
      free new new_result ne db_v db_z =
    let returns = create_payment-IsCalm c w fs calm_w valid v4 json fits free in
    let (done_v, acks, found, db, sent) =
      processes_created c w v free v4 new calm_v (db_v ∙ ap (λ r. r.1.db) returns) in
    let (done_z, acks', posts, db') =
      notifies_result to_str (created_row c w) (result_world v) z calm_z answered http
        (result-IsClaimable c w v z new_result ne (db_z ∙ db)) in
    (
      ap (λ r. r.0) returns,
      ap (λ r. r.1.sent) returns,
      done_v,
      sent,
      done_z,
      posts,
      rw (db', db_z) found,
      db'
          ∙ ap (update_events (result_id (created_row c w) v) (set_status TaskStatus.confirmed))
              (db_z ∙ db),
    )
