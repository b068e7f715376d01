-- ===== src/Examples/Complete.antt =====
-- The theorem on a request that completes at a concrete one.
use mco_louna_task.Storage.Numeric.{fits_column, stored_amount}
use mco_louna_task.UseCase.Create.Valid.{IsValid, build_parts_iff}
use mco_louna_task.Serial.Value.{json_fields}
use mco_louna_task.Notifier.Sender.{is_http}
use mco_louna_task.Domain.Webhook.{create_webhook_url, is_localhost}
use mco_louna_task.Domain.ValueObject.{base_post_init}
use mco_louna_task.Domain.Metadata.{create_metadata, has_str_keys}
use mco_louna_task.Domain.Identity.{create_idempotency_key}
use mco_louna_task.Domain.Description.{
  create_description, is_control, match_valid, validate_lenth, validate_pattern,
}
use mco_louna_task.Domain.Amount.{create_amount}
use mco_louna_task.Values.{uuid_version, TaskStatus}
use mco_louna_task.UseCase.Process.Plan.{settle, settled_delivery}
use mco_louna_task.UseCase.Create.Plan.{created_delivery, planned_payment}
use mco_louna_task.UseCase.Create.{build_parts, create_payment, create_response}
use mco_louna_task.System.Notified.{IsAnswered}
use mco_louna_task.System.Lifecycle.{
  created_row, message_of, processed_db, result_payload, result_world,
}
use mco_louna_task.System.Complete.{create_payment-completes}
use mco_louna_task.Storage.Payments.{has_id}
use mco_louna_task.Storage.Outbox.{set_status, update_events}
use mco_louna_task.Notifier.Attempts.{post_of}
use mco_louna_task.Exec.{PaymentRow, World}
use mco_louna_task.Examples.{
  empty_world, sample_command, sample_env, sample_str, sample_uuid, world_of,
}
use mco_louna_task.Errors.{ok}
use mco_louna_task.Consumer.Process.{handle_payment_processing}
use mco_louna_task.Consumer.Notify.{handle_notify_client}
use mco_louna_task.Consumer.Message.{Message}
use mco_louna_task.Base.{[], arith, find, refl, some, ◌∷◌, ◌≡◌}
use mco_louna_task.Examples.Runs.{sample_env-IsCalm}

-- the consumers, with the readings of the sample, on the state that the request left
abbrev consumer_world : World
consumer_world = world_of sample_env (create_payment sample_command empty_world).1.db

abbrev sample_delivered : Message
sample_delivered = message_of (created_delivery sample_command empty_world)

abbrev notifier_world : World
notifier_world =
    world_of sample_env (handle_payment_processing sample_delivered consumer_world).1.db

abbrev new_row : PaymentRow
new_row = created_row sample_command empty_world

abbrev settling_world : World
settling_world = result_world consumer_world

sample_env-IsAnswered : IsAnswered sample_env
sample_env-IsAnswered = record {
  closed = λ n. refl;
  code = λ n. 200;
  accepted = λ n. refl;
  success = λ n. omega arith;
}

sample-IsValid : IsValid sample_command empty_world
unfolding build_parts create_idempotency_key uuid_version create_description validate_lenth
    validate_pattern match_valid is_control create_metadata create_webhook_url is_localhost
    create_amount base_post_init has_str_keys
sample-IsValid = (build_parts_iff sample_command empty_world).0 refl

create_payment-completes_example :
    let result = settled_delivery new_row settling_world in
    let (reply, w') = create_payment sample_command empty_world in
    let (r, v') = handle_payment_processing sample_delivered consumer_world in
    let (q, z') = handle_notify_client sample_str (message_of result) notifier_world in
    (reply ≡ ok (create_response (planned_payment sample_command empty_world)))
    × (w'.sent ≡ created_delivery sample_command empty_world ∷ [])
    × (r ≡ ok tt)
    × (v'.sent ≡ result ∷ [])
    × (q ≡ ok tt)
    × (z'.posts
        ≡ post_of "https://shop.example/hook" (result_payload new_row settling_world) 5 ∷ [])
    × (find (has_id (sample_uuid 1)) z'.db.payments ≡ some (settle settling_world new_row))
    × (z'.db
        ≡ update_events
            (sample_uuid 5)
            (set_status TaskStatus.confirmed)
            (processed_db sample_command empty_world consumer_world))
unfolding json_fields is_http uuid_version fits_column stored_amount
create_payment-completes_example =
    create_payment-completes sample_str sample_command _ empty_world consumer_world notifier_world
      sample_env-IsCalm sample_env-IsCalm sample_env-IsCalm sample_env-IsAnswered sample-IsValid
      refl refl refl refl refl refl refl (λ e. omega (arith, e)) refl refl
