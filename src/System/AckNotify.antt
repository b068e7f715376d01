-- ===== src/System/AckNotify.antt =====
-- The notifier acknowledges a message exactly if it returns.
use mco_louna_task.System.Runs.{run_notify-Keeps, send_notification-Keeps}
use mco_louna_task.Values.{Fields, TaskStatus, Text, Uuid, Value}
use mco_louna_task.System.Acks.{
  SameAcks, SameAcks-refl, SameAcks-trans, IsSilent, bind-IsSilent, connect-IsSilent,
  publish-IsSilent, publish_retry-IsSilent, settle_task-IsSilent,
}
use mco_louna_task.System.AckOnce.{IsAcked, claim_then, decoded_then}
use mco_louna_task.Serial.Rebuild.{decode_notify}
use mco_louna_task.Notifier.Sender.{check_response, send_notification, send_once}
use mco_louna_task.Exec.{World}
use mco_louna_task.Domain.Event.{Event}
use mco_louna_task.Consumer.Notify.{
  dead_notify, fail_notify, handle_notify_client, handle_processed, notify_retry_queues, run_notify,
}
use mco_louna_task.Consumer.Message.{
  Message, attempt_of, max_attempts, publish, settle_task, should_run,
}
use mco_louna_task.Base.{Bool, Option, String, arith, false, ltb, none, refl, true, ℕ}

send_once-IsSilent :
    (url : String) (payload : Fields) (timeout : ℕ) → IsSilent (send_once url payload timeout)
unfolding send_once check_response
send_once-IsSilent url payload timeout w = ground arith

send_notification-IsSilent :
    (to_str : Value → Text) (event : Event) (timeout : Option ℕ)
    → IsSilent (send_notification to_str event timeout)
send_notification-IsSilent =
    send_notification-Keeps SameAcks SameAcks-refl SameAcks-trans (λ w n. refl) send_once-IsSilent

fail_notify-IsSilent :
    (again : Bool) (u : Uuid) (attempt : ℕ) (body : Value)
    → IsSilent (fail_notify again u attempt body)
fail_notify-IsSilent true u attempt body = publish_retry-IsSilent notify_retry_queues attempt body
fail_notify-IsSilent false u attempt body =
    bind-IsSilent (settle_task u TaskStatus.failed) (λ _. publish (dead_notify attempt body))
      (settle_task-IsSilent u TaskStatus.failed) (λ _. publish-IsSilent (dead_notify attempt body))

handle_processed-IsAcked :
    (to_str : Value → Text) (msg : Message) (event : Event) (w : World)
    → IsAcked w (handle_processed to_str msg event w)
unfolding handle_processed
handle_processed-IsAcked to_str msg event w =
    claim_then event.id
      (λ b. run_notify to_str (should_run b (attempt_of msg)) event (attempt_of msg) msg.body) w
      (λ b.
        run_notify-Keeps SameAcks SameAcks-refl SameAcks-trans to_str event (attempt_of msg)
          msg.body (send_notification-IsSilent to_str event none)
          (settle_task-IsSilent event.id TaskStatus.confirmed) connect-IsSilent
          (fail_notify-IsSilent (ltb (attempt_of msg) max_attempts) event.id (attempt_of msg)
            msg.body)
          (should_run b (attempt_of msg)))

-- The notifier acknowledges a message exactly once if it returns, and not at all if it raises,
-- whatever the message and the world.
pub handle_notify_client-IsAcked :
    (to_str : Value → Text) (msg : Message) (w : World)
    → IsAcked w (handle_notify_client to_str msg w)
unfolding handle_notify_client
handle_notify_client-IsAcked to_str msg w =
    decoded_then (decode_notify w.env.readers msg.body) (handle_processed to_str msg) w
      (λ event. handle_processed-IsAcked to_str msg event w)
