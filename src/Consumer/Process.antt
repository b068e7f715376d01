-- ===== src/Consumer/Process.antt =====
-- `handle_payment_processing` (events/process.py).
use mco_louna_task.Values.{TaskStatus, Uuid, Value}
use mco_louna_task.UseCase.Process.{process_payment}
use mco_louna_task.Serial.Rebuild.{decode_new_payment}
use mco_louna_task.Exec.{Action, Delivery, Env, ack, ask, catch, lift, pure, ◌>>=◌, ◌>>◌}
use mco_louna_task.Errors.{DomainClass, Error, domain_error}
use mco_louna_task.Domain.Event.{Event}
use mco_louna_task.Consumer.Message.{
  Message, attempt_of, claim_event, connect, delay_base, max_attempts, publish, publish_retry,
  settle_task, should_run,
}
use mco_louna_task.Broker.Routes.{dlq, new_payments_q, payments_dlx, payments_exchange}
use mco_louna_task.Broker.Retry.{RetryQueue, create_retry_queues}
use mco_louna_task.Base.{Bool, List, false, if◌then◌else◌, ltb, none, true, ℕ}

abbrev pub process_retry_queues : List RetryQueue
process_retry_queues = create_retry_queues new_payments_q payments_exchange delay_base max_attempts

-- The last failure is published with `queue=dlq`.
abbrev pub dead_process : Env → Value → Delivery
dead_process env body = record {
  exchange = payments_dlx.name;
  routing_key = env.route dlq.name dlq.routing_key;
  body = body;
  attempt = none;
}

abbrev pub publish_dead : Value → Action (Unit {0})
publish_dead body w = publish (dead_process w.env body) w

abbrev pub fail_process : Bool → Uuid → ℕ → Value → Action (Unit {0})
fail_process true event_id attempt body = publish_retry process_retry_queues attempt body
fail_process false event_id attempt body =
    settle_task event_id TaskStatus.failed >> publish_dead body

-- `except Exception`
unfoldable pub on_process_error : Uuid → ℕ → Value → Action (Unit {0})
on_process_error event_id attempt body = do
  connect
  fail_process (ltb attempt max_attempts) event_id attempt body

-- `except DomainBusinessRuleError`
abbrev pub is_business_rule : Error → Bool
is_business_rule (domain_error d) = elim d.cls [ DomainClass.business_rule ↦ true | _ ↦ false ]
is_business_rule _ = false

abbrev pub on_error : Uuid → ℕ → Value → Error → Action (Unit {0})
on_error event_id attempt body e =
    if is_business_rule e then pure tt else on_process_error event_id attempt body

-- the `try` block
unfoldable pub process_and_settle : Event → Action (Unit {0})
process_and_settle event = do process_payment event; settle_task event.id TaskStatus.confirmed

unfoldable pub run_process : Bool → Event → ℕ → Value → Action (Unit {0})
run_process false event attempt body = pure tt
run_process true event attempt body =
    catch (process_and_settle event) (on_error event.id attempt body)

-- the handler after the message has been read
unfoldable pub handle_new_payment : Message → Event → Action (Unit {0})
handle_new_payment msg event = do
  claimed ← claim_event event.id
  run_process (should_run claimed (attempt_of msg)) event (attempt_of msg) msg.body
  ack

unfoldable pub handle_payment_processing : Message → Action (Unit {0})
handle_payment_processing msg = do
  readers ← ask (λ e. e.readers)
  event ← lift (decode_new_payment readers msg.body)
  handle_new_payment msg event
