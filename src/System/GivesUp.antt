-- ===== src/System/GivesUp.antt =====
-- A client that cannot be reached: what the notifier does with one message until it gives it up.
use mco_louna_task.Storage.Outbox.{set_status, update_events}
use mco_louna_task.System.Settlement.{known_of_claimable, settle_task-IsCalm, claimed_event}
use mco_louna_task.Consumer.Message.{
  Message, attempt_of, connect, max_attempts, publish, publish_retry, retry_delivery,
}
use mco_louna_task.Broker.Retry.{RetryQueue}
use mco_louna_task.System.Claims.{IsClaimable, claimed_world}
use mco_louna_task.Notifier.Payload.{expected_payload, send_notification-send_webhook}
use mco_louna_task.Domain.Payment.{Payment, processed_event}
use mco_louna_task.Consumer.Notify.{
  dead_notify, handle_processed, notify_retry_queues, on_notify_error, run_notify,
  notify_and_settle,
}
use mco_louna_task.Values.{TaskStatus, Text, Uuid, Value, Fields}
use mco_louna_task.UseCase.Process.Calm.{IsCalm}
use mco_louna_task.Notifier.Sender.{
  check_response, is_http, is_transient, send_attempts, send_once, send_webhook, send_with_retries,
}
use mco_louna_task.Notifier.Attempts.{post_of, replicate}
use mco_louna_task.Exec.{Env, Post, PostOutcome, World}
use mco_louna_task.Errors.{
  ok, Error, err, http_request, http_status, http_timeout, webhook_sender_unavailable,
}
use mco_louna_task.Base.{
  ◌≤◌, List, [], get_elem?, some, ◌<◌, ◌∷◌, append_assoc, Bool, String, arith, false, leb, refl,
  suc, true, zero, ℕ, ◌++◌, ◌+◌, ◌==◌, ◌||◌, ◌≡◌,
}

-- an outcome that the sender tries again: no answer, a server's error, or too many requests
abbrev pub is_unreachable : PostOutcome → Bool
is_unreachable (PostOutcome.response code) = leb 500 code || code == 429
is_unreachable PostOutcome.timed_out = true
is_unreachable PostOutcome.request_error = true
is_unreachable PostOutcome.other_error = false

-- Commits and the broker are up, no other transaction holds a row, and no request is answered.
pub record IsUnreachable (env : Env) : Type 0 where
  pub calm : IsCalm env
  pub broker : (n : ℕ) → env.broker_publish n ≡ true
  pub closed : (n : ℕ) → env.breaker_open n ≡ false
  pub refuses : (n : ℕ) → is_unreachable (env.post n) ≡ true

abbrev posted : Post → ℕ → World → World
posted p n w = record w { posts = w.posts ++ replicate n p; tick = w.tick + n }

fails_once :
    (o : PostOutcome) (w : World)
    → is_unreachable o ≡ true
    → (e : Error) × (is_transient e ≡ true) × (check_response o w ≡ (err e, w))
unfolding check_response
fails_once (PostOutcome.response code) w h = (http_status, refl, ground arith)
fails_once PostOutcome.timed_out w h = (http_timeout, refl, refl)
fails_once PostOutcome.request_error w h = (http_request, refl, refl)
fails_once PostOutcome.other_error w h = absurd (cc h)

send_once-fails :
    (url : String) (payload : Fields) (timeout : ℕ) (w : World)
    → IsUnreachable w.env
    → (e : Error) × (is_transient e ≡ true)
      × (send_once url payload timeout w ≡ (err e, posted (post_of url payload timeout) 1 w))
unfolding send_once
send_once-fails url payload timeout w h =
    let (e, transient, raises) =
      fails_once (w.env.post w.tick) (posted (post_of url payload timeout) 1 w)
        (h.refuses w.tick) in
    (e, transient, raises)

posted_again :
    (p : Post) (n : ℕ) (w : World) → posted p (suc n) (posted p 1 w) ≡ posted p (suc (suc n)) w
posted_again p n w = ground (arith, append_assoc w.posts p (replicate (suc n) p))

send_attempts-fails :
    (n : ℕ) (url : String) (payload : Fields) (timeout : ℕ) (w : World)
    → IsUnreachable w.env
    → (e : Error) × (is_transient e ≡ true)
      × (send_attempts n url payload timeout w
          ≡ (err e, posted (post_of url payload timeout) (suc n) w))
unfolding send_attempts
send_attempts-fails zero url payload timeout w h = send_once-fails url payload timeout w h
send_attempts-fails (suc n) url payload timeout w h =
    let (e, transient, raises) = send_once-fails url payload timeout w h in
    let (e', transient', raises') =
      send_attempts-fails n url payload timeout (posted (post_of url payload timeout) 1 w) h in
    (
      e',
      transient',
      ground (arith, raises, transient, raises', posted_again (post_of url payload timeout) n w),
    )

send_webhook-fails :
    (url : String) (payload : Fields) (timeout : ℕ) (w : World)
    → IsUnreachable w.env
    → is_http url ≡ true
    → send_webhook url payload timeout w ≡ (
      err webhook_sender_unavailable,
      posted (post_of url payload timeout) 3 (record w { tick = w.tick + 1 }),
    )
unfolding send_webhook send_with_retries
send_webhook-fails url payload timeout w h valid =
    let (e, transient, raises) =
      send_attempts-fails 2 url payload timeout (record w { tick = w.tick + 1 }) h in
    ground (arith, h.closed w.tick, raises, transient)

-- one handling of the message, from the world in which its event has been claimed
abbrev tried : String → Fields → World → World
tried url payload w =
    let v = claimed_world w in posted (post_of url payload 5) 3 (record v { tick = v.tick + 1 })

notify-fails :
    (to_str : Value → Text) (id : Uuid) (at : ℕ) (reason : Value) (p : Payment) (w : World)
    → IsUnreachable w.env
    → is_http p.webhook_url.value ≡ true
    → notify_and_settle to_str (processed_event id at reason p) (claimed_world w) ≡ (
      err webhook_sender_unavailable,
      tried p.webhook_url.value (expected_payload p.status reason p) w,
    )
unfolding notify_and_settle
notify-fails to_str id at reason p w h valid = ground (
  arith,
  send_notification-send_webhook to_str id at reason p (claimed_world w),
  send_webhook-fails p.webhook_url.value (expected_payload p.status reason p) 5 (claimed_world w) h
      valid,
)

module _ (to_str : Value → Text) (msg : Message) (id : Uuid) (at : ℕ) (reason : Value) (p : Payment)
    (w : World) (h : IsUnreachable w.env) (valid : is_http p.webhook_url.value ≡ true)
    (claimable : IsClaimable id w) where
  abbrev pub posts_of : List Post
  posts_of = replicate 3 (post_of p.webhook_url.value (expected_payload p.status reason p) 5)

  pub handle_processed-retries :
      (q : RetryQueue)
      → attempt_of msg < max_attempts
      → get_elem? notify_retry_queues (attempt_of msg) ≡ some q
      → let (r, w') = handle_processed to_str msg (processed_event id at reason p) w in
        (r ≡ ok tt)
        × (w'.acks ≡ w.acks + 1)
        × (w'.posts ≡ w.posts ++ posts_of)
        × (w'.db ≡ w.db)
        × (w'.sent ≡ w.sent ++ retry_delivery q (attempt_of msg) msg.body ∷ [])
  unfolding handle_processed run_notify on_notify_error connect publish_retry publish
  handle_processed-retries q below found = ground (
    arith,
    claimed_event id w h.calm claimable,
    notify-fails to_str id at reason p w h valid,
    h.broker (w.tick + 1 + 1 + 1 + 3),
    h.broker (w.tick + 1 + 1 + 1 + 3 + 1),
    found,
  )

  pub handle_processed-dies :
      max_attempts ≤ attempt_of msg
      → let (r, w') = handle_processed to_str msg (processed_event id at reason p) w in
        (r ≡ ok tt)
        × (w'.acks ≡ w.acks + 1)
        × (w'.posts ≡ w.posts ++ posts_of)
        × (w'.db ≡ update_events id (set_status TaskStatus.failed) w.db)
        × (w'.sent ≡ w.sent ++ dead_notify (attempt_of msg) msg.body ∷ [])
  unfolding handle_processed run_notify on_notify_error connect publish
  handle_processed-dies over = ground (
    arith,
    claimed_event id w h.calm claimable,
    notify-fails to_str id at reason p w h valid,
    h.broker (w.tick + 1 + 1 + 1 + 3),
    settle_task-IsCalm TaskStatus.failed id
        (record (tried p.webhook_url.value (expected_payload p.status reason p) w) {
          tick = w.tick + 1 + 1 + 1 + 3 + 1;
        })
        h.calm (known_of_claimable id w.db.outbox claimable),
    h.broker (w.tick + 1 + 1 + 1 + 3 + 1 + 1 + 1),
  )
