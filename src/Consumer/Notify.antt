-- ===== src/Consumer/Notify.antt =====
-- `handle_notify_client` (events/notify.py).
use mco_louna_task.Values.{TaskStatus, Text, Uuid, Value, str}
use mco_louna_task.Serial.Rebuild.{decode_notify}
use mco_louna_task.Notifier.Sender.{send_notification}
use mco_louna_task.Exec.{Action, Delivery, ack, ask, catch, lift, pure, ◌>>=◌, ◌>>◌}
use mco_louna_task.Errors.{Error}
use mco_louna_task.Domain.Event.{Event}
use mco_louna_task.Consumer.Message.{
  Message, attempt_of, claim_event, connect, delay_base, max_attempts, publish, publish_retry,
  settle_task, should_run,
}
use mco_louna_task.Broker.Routes.{dlq, notify_payments_q, payments_dlx, payments_exchange}
use mco_louna_task.Broker.Retry.{RetryQueue, create_retry_queues}
use mco_louna_task.Base.{Bool, List, false, ltb, none, some, true, ℕ}

abbrev pub notify_retry_queues : List RetryQueue
notify_retry_queues =
    create_retry_queues notify_payments_q payments_exchange delay_base max_attempts

-- The last failure is published with `routing_key=dlq.routing_key`.
abbrev pub dead_notify : ℕ → Value → Delivery
dead_notify attempt body = record {
  exchange = payments_dlx.name;
  routing_key = str dlq.routing_key;
  body = body;
  attempt = some attempt;
}

abbrev pub fail_notify : Bool → Uuid → ℕ → Value → Action (Unit {0})
fail_notify true event_id attempt body = publish_retry notify_retry_queues attempt body
fail_notify false event_id attempt body = do
  settle_task event_id TaskStatus.failed
  publish (dead_notify attempt body)

-- `except Exception`
unfoldable pub on_notify_error : Uuid → ℕ → Value → Error → Action (Unit {0})
on_notify_error event_id attempt body e = do
  connect
  fail_notify (ltb attempt max_attempts) event_id attempt body

-- the `try` block
unfoldable pub notify_and_settle : (Value → Text) → Event → Action (Unit {0})
notify_and_settle to_str event = do
  send_notification to_str event none
  settle_task event.id TaskStatus.confirmed

unfoldable pub run_notify : (Value → Text) → Bool → Event → ℕ → Value → Action (Unit {0})
run_notify to_str false event attempt body = pure tt
run_notify to_str true event attempt body =
    catch (notify_and_settle to_str event) (on_notify_error event.id attempt body)

-- the handler after the message has been read
unfoldable pub handle_processed : (Value → Text) → Message → Event → Action (Unit {0})
handle_processed to_str msg event = do
  claimed ← claim_event event.id
  run_notify to_str (should_run claimed (attempt_of msg)) event (attempt_of msg) msg.body
  ack

unfoldable pub handle_notify_client : (Value → Text) → Message → Action (Unit {0})
handle_notify_client to_str msg = do
  readers ← ask (λ e. e.readers)
  event ← lift (decode_notify readers msg.body)
  handle_processed to_str msg event
