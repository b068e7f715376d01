-- ===== src/Consumer/Failure.antt =====
-- What the two consumers do with a message whose handling failed.
use mco_louna_task.Values.{Text, str, TaskStatus, Uuid, Value}
use mco_louna_task.Storage.Uow.{commit}
use mco_louna_task.Storage.Outbox.{mark_processed, set_status, update_events}
use mco_louna_task.Exec.{Delivery, World, ◌>>=◌}
use mco_louna_task.Errors.{Error, Result, err, ok}
use mco_louna_task.Consumer.Process.{
  fail_process, dead_process, on_process_error, process_retry_queues,
}
use mco_louna_task.Consumer.Notify.{dead_notify, notify_retry_queues, on_notify_error}
use mco_louna_task.Consumer.Message.{connect, max_attempts, publish, publish_retry, settle_task}
use mco_louna_task.Broker.Retry.{RetryQueue}
use mco_louna_task.Base.{
  ◌+◌, List, Option, [], arith, false, get_elem?, inl, inr, ltb, none, refl, some, true, ℕ, ◌++◌,
  ◌<◌, ◌∷◌, ◌≡◌, ◌≤◌, ◌⊎◌,
}

-- a message to the dead-letter exchange
abbrev pub to_dlx : Text → Value → Option ℕ → Delivery
to_dlx key body attempt = record {
  exchange = "payments.dlx";
  routing_key = key;
  body = body;
  attempt = attempt;
}

-- Below the maximal attempt: the message goes to a retry queue with the next attempt number, and
-- nothing is committed. At the maximum: its event is committed as failed, and the message `dead` is
-- sent. If the broker or the database refuses, an error is raised and nothing is sent.
abbrev pub OnFailure :
    List RetryQueue → Delivery → Uuid → ℕ → Value → World → Result (Unit {0}) × World → Type 0
OnFailure queues dead u attempt body w (ok _, w') =
    ((attempt < max_attempts)
      × (w'.db ≡ w.db)
      × ((q : RetryQueue) × (get_elem? queues attempt ≡ some q)
          × (w'.sent ≡ w.sent ++ to_dlx q.routing_key body (some (attempt + 1)) ∷ [])))
    ⊎ ((max_attempts ≤ attempt)
        × (w'.db ≡ update_events u (set_status TaskStatus.failed) w.db)
        × (w'.sent ≡ w.sent ++ dead ∷ []))
OnFailure queues dead u attempt body w (err x, w') =
    (w'.sent ≡ w.sent)
    × ((w'.db ≡ w.db)
        ⊎ ((max_attempts ≤ attempt)
            × (w'.db ≡ update_events u (set_status TaskStatus.failed) w.db)))

module _ (queues : List RetryQueue) (dead : Delivery) (u : Uuid) (attempt : ℕ) (body : Value) where
  retries :
      (found : Option RetryQueue) (w : World)
      → get_elem? queues attempt ≡ found
      → attempt < max_attempts
      → OnFailure queues dead u attempt body w
          ((connect >>= λ _. publish_retry queues attempt body) w)
  unfolding connect publish_retry publish
  retries none w e h = ground (arith, e)
  retries (some q) w e h = rw e (ground (arith, e))

  gives_up :
      (w : World)
      → max_attempts ≤ attempt
      → OnFailure queues dead u attempt body w
          ((connect >>= λ _. settle_task u TaskStatus.failed >>= λ _. publish dead) w)
  unfolding connect settle_task mark_processed commit publish
  gives_up w h = ground arith

gives_up_process :
    (u : Uuid) (attempt : ℕ) (body : Value) (w : World)
    → max_attempts ≤ attempt
    → OnFailure process_retry_queues
        (dead_process w.env body)
        u
        attempt
        body
        w
        ((connect >>= λ _. fail_process false u attempt body) w)
unfolding connect settle_task mark_processed commit publish
gives_up_process u attempt body w h = ground arith

below_or_not :
    (n : ℕ)
    → ((n < max_attempts) × (ltb n max_attempts ≡ true))
      ⊎ ((max_attempts ≤ n) × (ltb n max_attempts ≡ false))
below_or_not n = ground arith

on_process_error-OnFailure :
    (u : Uuid) (attempt : ℕ) (body : Value) (w : World)
    → OnFailure process_retry_queues
        (dead_process w.env body)
        u
        attempt
        body
        w
        (on_process_error u attempt body w)
unfolding on_process_error
on_process_error-OnFailure u attempt body w = elim (below_or_not attempt) [
  | inl (h, e) ↦ rw e (
      retries process_retry_queues (dead_process w.env body) u attempt body
        (get_elem? process_retry_queues attempt) w refl h)
  | inr (h, e) ↦ rw e (gives_up_process u attempt body w h)
]

on_notify_error-OnFailure :
    (u : Uuid) (attempt : ℕ) (body : Value) (e : Error) (w : World)
    → OnFailure notify_retry_queues
        (dead_notify attempt body)
        u
        attempt
        body
        w
        (on_notify_error u attempt body e w)
unfolding on_notify_error
on_notify_error-OnFailure u attempt body x w = elim (below_or_not attempt) [
  | inl (h, e) ↦ rw e (
      retries notify_retry_queues (dead_notify attempt body) u attempt body
        (get_elem? notify_retry_queues attempt) w refl h)
  | inr (h, e) ↦ rw e (gives_up notify_retry_queues (dead_notify attempt body) u attempt body w h)
]

-- After a failure either handler returns or raises; of the notifier, whatever the error. It
-- returns, below the maximal attempt, when it has sent the message to its retry queue of the attempt
-- with the next number and committed nothing; at the maximum, when it has committed the event as
-- failed and sent its dead message: both to the exchange payments.dlx with the body unchanged, the
-- dead message of the notifier with the empty key and its attempt, that of the other consumer with
-- the key that the library makes of the queue and no attempt. It raises with nothing sent, and with nothing committed but, at
-- the maximum, that event.
pub handlers-OnFailure :
    (u : Uuid) (attempt : ℕ) (body : Value) (e : Error) (w : World)
    → OnFailure process_retry_queues
        (to_dlx (w.env.route "dead" "") body none)
        u
        attempt
        body
        w
        (on_process_error u attempt body w)
      × OnFailure notify_retry_queues
          (to_dlx (str "") body (some attempt))
          u
          attempt
          body
          w
          (on_notify_error u attempt body e w)
handlers-OnFailure u attempt body e w =
    (on_process_error-OnFailure u attempt body w, on_notify_error-OnFailure u attempt body e w)
