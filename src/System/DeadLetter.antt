-- ===== src/System/DeadLetter.antt =====
-- The message of a result to a client that cannot be reached, from its publication to its end.
use mco_louna_task.Values.{TaskStatus, Text, Value}
use mco_louna_task.UseCase.Process.Plan.{
  chosen_reason, settled_delivery, settled_event, settled_payment,
}
use mco_louna_task.System.Lifecycle.{decode_settled, message_of, result_payload}
use mco_louna_task.System.GivesUp.{handle_processed-retries, IsUnreachable, handle_processed-dies}
use mco_louna_task.System.Claims.{IsClaimable}
use mco_louna_task.Storage.Payments.{to_domain}
use mco_louna_task.Storage.Outbox.{has_event_id, is_pending_task, set_status, update_events}
use mco_louna_task.Notifier.Sender.{is_http}
use mco_louna_task.Notifier.Attempts.{post_of, replicate}
use mco_louna_task.Exec.{Database, Delivery, PaymentRow, Post, World}
use mco_louna_task.Errors.{Result, ok}
use mco_louna_task.Consumer.Notify.{dead_notify, handle_notify_client, notify_retry_queues}
use mco_louna_task.Consumer.Message.{retry_delivery, Message, attempt_of, max_attempts}
use mco_louna_task.Broker.Retry.{create_retry_queues, RetryQueue}
use mco_louna_task.Base.{
  Option, any, none, refl, subst, sym, ◌&&◌, ◌∙◌, List, [], arith, get_elem?, some, suc, true, zero,
  ℕ, ◌++◌, ◌+◌, ◌<◌, ◌∷◌, ◌≡◌,
}

-- the message of the result, and its retries
abbrev pub result_message : PaymentRow → World → ℕ → Message
result_message row v zero = message_of (settled_delivery row v)
result_message row v (suc k) = record {
  body = (settled_delivery row v).body;
  attempt = some (suc k);
}

abbrev pub three_posts : PaymentRow → World → List Post
three_posts row v = replicate 3 (post_of row.webhook_url (result_payload row v) 5)

-- A delivery that has failed: three requests, nothing committed, and the next retry is sent.
abbrev pub IsSentAgain : PaymentRow → World → ℕ → World → Result (Unit {0}) × World → Type 0
IsSentAgain row v k w (r, w') =
    (r ≡ ok tt)
    × (w'.acks ≡ w.acks + 1)
    × (w'.posts ≡ w.posts ++ three_posts row v)
    × (w'.db ≡ w.db)
    × ((d : Delivery) × (w'.sent ≡ w.sent ++ d ∷ [])
        × (message_of d ≡ result_message row v (suc k)))

-- The last delivery: three requests, the event has failed, and the dead letter is sent.
abbrev pub IsGivenUp : PaymentRow → World → World → Result (Unit {0}) × World → Type 0
IsGivenUp row v w (r, w') =
    (r ≡ ok tt)
    × (w'.acks ≡ w.acks + 1)
    × (w'.posts ≡ w.posts ++ three_posts row v)
    × (w'.db ≡ update_events (settled_event row v).id (set_status TaskStatus.failed) w.db)
    × (w'.sent ≡ w.sent ++ dead_notify max_attempts (settled_delivery row v).body ∷ [])

abbrev with_attempt : PaymentRow → World → Option ℕ → Message
with_attempt row v attempt = record { body = (settled_delivery row v).body; attempt = attempt }

module _ (to_str : Value → Text) (row : PaymentRow) (v : World)
    (valid : is_http row.webhook_url ≡ true) where
  retried :
      (attempt : Option ℕ) (q : RetryQueue) (w : World)
      → IsUnreachable w.env
      → IsClaimable (settled_event row v).id w
      → attempt_of (with_attempt row v attempt) < max_attempts
      → get_elem? notify_retry_queues (attempt_of (with_attempt row v attempt)) ≡ some q
      → let msg = with_attempt row v attempt in
        let (r, w') = handle_notify_client to_str msg w in
        (r ≡ ok tt)
        × (w'.acks ≡ w.acks + 1)
        × (w'.posts ≡ w.posts ++ three_posts row v)
        × (w'.db ≡ w.db)
        × (w'.sent ≡ w.sent ++ retry_delivery q (attempt_of msg) msg.body ∷ [])
  unfolding handle_notify_client to_domain
  retried attempt q w h claimable below found = rw (decode_settled w.env.readers row v) (
      handle_processed-retries to_str (with_attempt row v attempt) (settled_event row v).id
        (v.env.clock (v.tick + 1 + 1 + 1)) (chosen_reason (v.env.success v.tick))
        (settled_payment row v) w h valid claimable q below found)

  sent_again :
      (k : ℕ) (q : RetryQueue) (w : World)
      → k < max_attempts
      → get_elem? notify_retry_queues k ≡ some q
      → IsUnreachable w.env
      → IsClaimable (settled_event row v).id w
      → IsSentAgain row v k w (handle_notify_client to_str (result_message row v k) w)
  sent_again zero q w below found h claimable =
      let (r, acks, posts, db, sent) = retried none q w h claimable below found in
      (r, acks, posts, db, (_, sent, refl))
  sent_again (suc k) q w below found h claimable =
      let (r, acks, posts, db, sent) = retried (some (suc k)) q w h claimable below found in
      (r, acks, posts, db, (_, sent, ground arith))

  ends :
      (w : World)
      → IsUnreachable w.env
      → IsClaimable (settled_event row v).id w
      → IsGivenUp row v w (handle_notify_client to_str (result_message row v 3) w)
  unfolding handle_notify_client to_domain
  ends w h claimable = rw (decode_settled w.env.readers row v) (
      handle_processed-dies to_str (result_message row v 3) (settled_event row v).id
        (v.env.clock (v.tick + 1 + 1 + 1)) (chosen_reason (v.env.success v.tick))
        (settled_payment row v) w h valid claimable (omega arith))

-- A result whose client cannot be reached is given up after four deliveries and twelve requests,
-- where commits and the broker are up, the circuit breaker is closed, no other transaction holds a
-- row, and each request gets a server's error, too many requests or no answer. The first three
-- deliveries make three requests each, commit nothing and send the message again with the next
-- attempt; the fourth makes three more, commits the event as failed and sends the dead letter. Each
-- is acknowledged once. The webhook has an HTTP scheme, and the event is pending at the start; the
-- deliveries run in worlds of their own, each of which has the committed state that the one before
-- left.
pub unreachable_client :
    (to_str : Value → Text) (row : PaymentRow) (v w0 w1 w2 w3 : World)
    → is_http row.webhook_url ≡ true
    → IsUnreachable w0.env
    → IsUnreachable w1.env
    → IsUnreachable w2.env
    → IsUnreachable w3.env
    → IsClaimable (settled_event row v).id w0
    → w1.db ≡ (handle_notify_client to_str (result_message row v 0) w0).1.db
    → w2.db ≡ (handle_notify_client to_str (result_message row v 1) w1).1.db
    → w3.db ≡ (handle_notify_client to_str (result_message row v 2) w2).1.db
    → IsSentAgain row v 0 w0 (handle_notify_client to_str (result_message row v 0) w0)
      × IsSentAgain row v 1 w1 (handle_notify_client to_str (result_message row v 1) w1)
      × IsSentAgain row v 2 w2 (handle_notify_client to_str (result_message row v 2) w2)
      × IsGivenUp row v w3 (handle_notify_client to_str (result_message row v 3) w3)
unfolding create_retry_queues
unreachable_client to_str row v w0 w1 w2 w3 valid h0 h1 h2 h3 c0 d1 d2 d3 =
    let IsPending = λ (d : Database).
      any (λ e. has_event_id (settled_event row v).id e && is_pending_task e) d.outbox ≡ true in
    let s0 = sent_again to_str row v valid 0 _ w0 (omega arith) refl h0 c0 in
    let c1 : IsClaimable (settled_event row v).id w1 = subst IsPending (sym (d1 ∙ s0.3)) c0 in
    let s1 = sent_again to_str row v valid 1 _ w1 (omega arith) refl h1 c1 in
    let c2 : IsClaimable (settled_event row v).id w2 = subst IsPending (sym (d2 ∙ s1.3)) c1 in
    let s2 = sent_again to_str row v valid 2 _ w2 (omega arith) refl h2 c2 in
    let c3 : IsClaimable (settled_event row v).id w3 = subst IsPending (sym (d3 ∙ s2.3)) c2 in
    (s0, s1, s2, ends to_str row v valid w3 h3 c3)
