-- ===== src/System/Notified.antt =====
-- A delivery to the notifier when nothing fails.
use mco_louna_task.UseCase.Process.Calm.{IsCalm}
use mco_louna_task.System.Settlement.{claimed_event, known_of_claimable, settle_task-IsCalm}
use mco_louna_task.System.Claims.{IsClaimable, claimed_world}
use mco_louna_task.Storage.Outbox.{set_status, update_events}
use mco_louna_task.Notifier.Payload.{expected_payload, send_notification-send_webhook}
use mco_louna_task.Http.Routes.{answered}
use mco_louna_task.Domain.Payment.{Payment, processed_event}
use mco_louna_task.Consumer.Notify.{handle_processed, notify_and_settle, run_notify}
use mco_louna_task.Consumer.Message.{Message}
use mco_louna_task.Values.{TaskStatus, Text, Uuid, Value, Fields}
use mco_louna_task.Notifier.Sender.{
  check_response, is_http, send_attempts, send_once, send_webhook, send_with_retries,
}
use mco_louna_task.Notifier.Attempts.{post_of}
use mco_louna_task.Exec.{Env, World, response}
use mco_louna_task.Errors.{ok}
use mco_louna_task.Base.{◌<◌, String, [], arith, false, true, ℕ, ◌++◌, ◌+◌, ◌∷◌, ◌≡◌}

-- The circuit breaker is closed, and the clients accept what they are sent.
pub record IsAnswered (env : Env) : Type 0 where
  pub closed : (n : ℕ) → env.breaker_open n ≡ false
  pub code : ℕ → ℕ
  pub accepted : (n : ℕ) → env.post n ≡ response (code n)
  pub success : (n : ℕ) → code n < 400

abbrev posted : String → Fields → ℕ → World → World
posted url payload timeout w = record w {
  posts = w.posts ++ post_of url payload timeout ∷ [];
  tick = w.tick + 1 + 1;
}

send_webhook-IsAnswered :
    (url : String) (payload : Fields) (timeout : ℕ) (w : World)
    → IsAnswered w.env
    → is_http url ≡ true
    → send_webhook url payload timeout w ≡ (ok tt, posted url payload timeout w)
unfolding send_webhook send_with_retries send_attempts send_once check_response
send_webhook-IsAnswered url payload timeout w calm valid =
    ground (arith, calm.closed w.tick, calm.accepted (w.tick + 1), calm.success (w.tick + 1))

-- A delivery of the pending event of a settled payment tells the client when nothing fails: commits
-- go through, no other transaction holds the event, the circuit breaker is closed, and the client
-- answers below 400. The handler returns and acknowledges the message once; the one request is for
-- the webhook of the payment, with its payload; and the event is confirmed.
pub handle_processed-tells :
    (to_str : Value → Text) (msg : Message) (id : Uuid) (at : ℕ) (reason : Value) (p : Payment)
    (w : World)
    → IsCalm w.env
    → IsAnswered w.env
    → is_http p.webhook_url.value ≡ true
    → IsClaimable id w
    → let (r, w') = handle_processed to_str msg (processed_event id at reason p) w in
      (r ≡ ok tt)
      × (w'.acks ≡ w.acks + 1)
      × (w'.posts
          ≡ w.posts ++ post_of p.webhook_url.value (expected_payload p.status reason p) 5 ∷ [])
      × (w'.db ≡ update_events id (set_status TaskStatus.confirmed) w.db)
      × (w'.sent ≡ w.sent)
unfolding handle_processed run_notify notify_and_settle
handle_processed-tells to_str msg id at reason p w calm answered valid claimable = ground (
  arith,
  claimed_event id w calm claimable,
  send_notification-send_webhook to_str id at reason p (claimed_world w),
  send_webhook-IsAnswered p.webhook_url.value (expected_payload p.status reason p) 5
      (claimed_world w) answered valid,
  settle_task-IsCalm TaskStatus.confirmed id
      (posted p.webhook_url.value (expected_payload p.status reason p) 5 (claimed_world w)) calm
      (known_of_claimable id w.db.outbox claimable),
)
