-- ===== src/Examples/Events.antt =====
-- The theorems on events, their publication and the notifications at concrete inputs.
use mco_louna_task.Serial.Converted.{Converted}
use mco_louna_task.Notifier.Payload.{send_notification_with-send, expected_payload}
use mco_louna_task.Consumer.Process.{on_process_error, process_retry_queues}
use mco_louna_task.Consumer.Notify.{notify_retry_queues, on_notify_error}
use mco_louna_task.Consumer.Failure.{to_dlx, OnFailure, handlers-OnFailure}
use mco_louna_task.Values.{dict, end, field, none_value, str, str_key, uuid}
use mco_louna_task.Serial.Value.{serialize_value}
use mco_louna_task.Serial.Roundtrip.{decode-published, reason_value}
use mco_louna_task.Serial.Rebuild.{decode_new_payment, decode_notify}
use mco_louna_task.Serial.Laws.{serialize_value-Outcome}
use mco_louna_task.Serial.Event.{parse_event_to_message}
use mco_louna_task.Notifier.Sender.{httpx_sender, send_notification_with, send_webhook}
use mco_louna_task.Notifier.Attempts.{send_webhook-Outcome}
use mco_louna_task.Examples.{
  pending_world, sample_env, sample_str, empty_world, no_readers, sample_payment, sample_uuid,
}
use mco_louna_task.Errors.{http_timeout, ok, ◌>>=◌}
use mco_louna_task.Domain.Payment.{created_event, processed_event}
use mco_louna_task.Base.{none, some, true, ◌≡◌}
use mco_louna_task.Serial.Laws as SerialLaws
use mco_louna_task.Notifier.Attempts as Attempts

decode-published_example :
    ((parse_event_to_message (created_event (sample_uuid 2) 51 sample_payment)
        >>= decode_new_payment no_readers)
      ≡ ok (created_event (sample_uuid 2) 51 sample_payment))
    × ((parse_event_to_message (
            processed_event
              (sample_uuid 2)
              51
              (reason_value (some (str "simulated error")))
              sample_payment)
          >>= decode_notify no_readers)
        ≡ ok (
            processed_event
              (sample_uuid 2)
              51
              (reason_value (some (str "simulated error")))
              sample_payment))
decode-published_example =
    decode-published no_readers (sample_uuid 2) 51 (some (str "simulated error")) sample_payment

serialize_value-Outcome_example :
    SerialLaws.Outcome true
      (dict (field (str_key "id") (uuid (sample_uuid 1)) end))
      (serialize_value true (dict (field (str_key "id") (uuid (sample_uuid 1)) end)))
    × Converted true
        (dict (field (str_key "id") (uuid (sample_uuid 1)) end))
        (serialize_value true (dict (field (str_key "id") (uuid (sample_uuid 1)) end)))
serialize_value-Outcome_example =
    serialize_value-Outcome true (dict (field (str_key "id") (uuid (sample_uuid 1)) end))

send_webhook-Outcome_example :
    Attempts.Outcome "https://shop.example/hook" end 5 empty_world
      (send_webhook "https://shop.example/hook" end 5 empty_world)
send_webhook-Outcome_example = send_webhook-Outcome "https://shop.example/hook" end 5 empty_world

send_notification_with-send_example :
    send_notification_with httpx_sender sample_str
      (processed_event (sample_uuid 3) 61 none_value sample_payment)
      none
      empty_world
    ≡ send_webhook sample_payment.webhook_url.value
        (expected_payload sample_payment.status none_value sample_payment)
        5
        empty_world
send_notification_with-send_example =
    send_notification_with-send httpx_sender sample_str (sample_uuid 3) 61 none_value sample_payment
      empty_world

handlers-OnFailure_example :
    OnFailure process_retry_queues
      (to_dlx (sample_env.route "dead" "") none_value none)
      (sample_uuid 2)
      3
      none_value
      pending_world
      (on_process_error (sample_uuid 2) 3 none_value pending_world)
    × OnFailure notify_retry_queues
        (to_dlx (str "") none_value (some 3))
        (sample_uuid 2)
        3
        none_value
        pending_world
        (on_notify_error (sample_uuid 2) 3 none_value http_timeout pending_world)
handlers-OnFailure_example =
    handlers-OnFailure (sample_uuid 2) 3 none_value http_timeout pending_world
