-- ===== src/System/Emits.antt =====
-- What the two handlers send to the broker while they handle a message.
use mco_louna_task.Values.{Fields, TaskStatus, Text, Uuid, Value, str}
use mco_louna_task.UseCase.Process.Plan.{settled_delivery}
use mco_louna_task.UseCase.Process.Outcome.{after_read, process_payment-Outcome}
use mco_louna_task.UseCase.Process.{process_in_transaction, process_payment}
use mco_louna_task.System.Runs.{
  claim_then-Keeps, run_notify-Keeps, run_process-Keeps, send_notification-Keeps,
}
use mco_louna_task.System.Rules.{Keeps, bind-Keeps, lift-Keeps}
use mco_louna_task.System.Handlers.{uuid_or_rejected}
use mco_louna_task.Storage.Uow.{commit}
use mco_louna_task.Storage.Outbox.{mark_in_process, mark_processed}
use mco_louna_task.Serial.Rebuild.{decode_new_payment, decode_notify}
use mco_louna_task.Notifier.Sender.{check_response, send_once}
use mco_louna_task.Exec.{Delivery, World}
use mco_louna_task.Errors.{Result, err, ok}
use mco_louna_task.Domain.Event.{Event}
use mco_louna_task.Consumer.Process.{
  dead_process, fail_process, handle_new_payment, handle_payment_processing, process_retry_queues,
  publish_dead, run_process,
}
use mco_louna_task.Consumer.Notify.{
  dead_notify, fail_notify, handle_notify_client, handle_processed, notify_retry_queues, run_notify,
}
use mco_louna_task.Consumer.Message.{
  Message, attempt_of, claim_event, connect, max_attempts, or_index_error, publish, publish_retry,
  retry_delivery, settle_task, should_run,
}
use mco_louna_task.Broker.Routes.{dlq}
use mco_louna_task.Broker.Retry.{RetryQueue}
use mco_louna_task.Broker.Backoff.{Handed, publish-Handed}
use mco_louna_task.Base.{
  All, All-append, Bool, List, String, [], ap, append-append, append_nil, arith, false, get_elem?,
  inl, inr, ltb, none, refl, some, true, ℕ, ◌++◌, ◌+◌, ◌<◌, ◌∙◌, ◌∷◌, ◌≡◌, ◌⊎◌,
}
use mco_louna_task.UseCase.Process.Outcome as ProcessOutcome

-- An event's message, a message to the dead-letter queue, or, below the maximal attempt, the message
-- again with the next attempt.
abbrev pub IsSendOf : Message → Delivery → Type 0
IsSendOf msg d =
    (d.attempt ≡ none)
    ⊎ (d.routing_key ≡ str dlq.routing_key)
    ⊎ ((attempt_of msg < max_attempts)
        × (d.attempt ≡ some (attempt_of msg + 1))
        × (d.body ≡ msg.body))

abbrev pub Emits : Message → World → World → Type 0
Emits msg w w' = (new : List Delivery) × (w'.sent ≡ w.sent ++ new) × All (IsSendOf msg) new

module _ (msg : Message) where
  pub Emits-nothing : (w w' : World) → w'.sent ≡ w.sent → Emits msg w w'
  Emits-nothing w w' e = ([], e ∙ append_nil w.sent, tt)

  pub Emits-one :
      (d : Delivery) (w w' : World) → IsSendOf msg d → w'.sent ≡ w.sent ++ d ∷ [] → Emits msg w w'
  Emits-one d w w' h e = (d ∷ [], e, (h, tt))

  pub Emits-refl : (w : World) → Emits msg w w
  Emits-refl w = Emits-nothing w w refl

  pub Emits-trans : (u v w : World) → Emits msg u v → Emits msg v w → Emits msg u w
  Emits-trans u v w (xs, sent, hx) (ys, sent', hy) = (
    xs ++ ys,
    sent' ∙ ap (λ s. s ++ ys) sent ∙ append-append u.sent xs ys,
    All-append (IsSendOf msg) xs ys hx hy,
  )

  claim-Emits : (u : Uuid) → Keeps (Emits msg) (claim_event u)
  unfolding claim_event mark_in_process
  claim-Emits u w = Emits-nothing w (claim_event u w).1 (ground arith)

  connect-Emits : Keeps (Emits msg) connect
  unfolding connect
  connect-Emits w = Emits-nothing w (connect w).1 (ground arith)

  settle_task-Emits : (u : Uuid) (s : TaskStatus) → Keeps (Emits msg) (settle_task u s)
  unfolding settle_task mark_processed commit
  settle_task-Emits u s w = Emits-nothing w (settle_task u s w).1 (ground arith)

  of_Handed :
      (d : Delivery) (w : World) (x : Result (Unit {0}) × World)
      → IsSendOf msg d
      → Handed d w x
      → Emits msg w x.1
  of_Handed d w (ok _, w') h sent = Emits-one d w w' h sent
  of_Handed d w (err e, w') h (_, same) = Emits-nothing w w' same

  publish-Emits : (d : Delivery) → IsSendOf msg d → Keeps (Emits msg) (publish d)
  publish-Emits d h w = of_Handed d w (publish d w) h (publish-Handed d w)

  publish_retry-Emits :
      (queues : List RetryQueue)
      → attempt_of msg < max_attempts
      → Keeps (Emits msg) (publish_retry queues (attempt_of msg) msg.body)
  unfolding publish_retry
  publish_retry-Emits queues h =
      lift-Keeps (Emits msg) Emits-refl Emits-trans
        (λ q. publish (retry_delivery q (attempt_of msg) msg.body))
        (λ q.
          publish-Emits (retry_delivery q (attempt_of msg) msg.body) (inr (inr (h, refl, refl))))
        (or_index_error (get_elem? queues (attempt_of msg)))

  fail_process-Emits :
      (again : Bool) (u : Uuid)
      → ltb (attempt_of msg) max_attempts ≡ again
      → Keeps (Emits msg) (fail_process again u (attempt_of msg) msg.body)
  fail_process-Emits true u h = publish_retry-Emits process_retry_queues (ground arith)
  fail_process-Emits false u h =
      bind-Keeps (Emits msg) Emits-refl Emits-trans (λ _. publish_dead msg.body)
        (λ _ w. publish-Emits (dead_process w.env msg.body) (inl refl) w)
        (settle_task u TaskStatus.failed) (settle_task-Emits u TaskStatus.failed)

  fail_notify-Emits :
      (again : Bool) (u : Uuid)
      → ltb (attempt_of msg) max_attempts ≡ again
      → Keeps (Emits msg) (fail_notify again u (attempt_of msg) msg.body)
  fail_notify-Emits true u h = publish_retry-Emits notify_retry_queues (ground arith)
  fail_notify-Emits false u h =
      bind-Keeps (Emits msg) Emits-refl Emits-trans
        (λ _. publish (dead_notify (attempt_of msg) msg.body))
        (λ _. publish-Emits (dead_notify (attempt_of msg) msg.body) (inr (inl refl)))
        (settle_task u TaskStatus.failed) (settle_task-Emits u TaskStatus.failed)

  of_processed :
      (u : Uuid) (w : World) (x : Result (Unit {0}) × World)
      → ProcessOutcome.Outcome u w x
      → Emits msg w x.1
  of_processed u w (ok _, w') (row, _, _, _, sent) =
      Emits-one (settled_delivery row (after_read w)) w w' (inl refl) sent
  of_processed u w (err x, w') (same, _) = Emits-nothing w w' same

  process_payment-Emits : (event : Event) → Keeps (Emits msg) (process_payment event)
  unfolding process_payment process_in_transaction
  process_payment-Emits event w = elim (uuid_or_rejected w.env.dev event.payment_id) [
    | inl (u, e) ↦ of_processed u w (process_payment event w) (process_payment-Outcome u event w e)
    | inr (e, h) ↦ Emits-nothing w (process_payment event w).1 (ground (arith, h))
  ]

  send_once-Emits :
      (url : String) (payload : Fields) (timeout : ℕ)
      → Keeps (Emits msg) (send_once url payload timeout)
  unfolding send_once check_response
  send_once-Emits url payload timeout w =
      Emits-nothing w (send_once url payload timeout w).1 (ground arith)

  handle_new_payment-Emits : (event : Event) → Keeps (Emits msg) (handle_new_payment msg event)
  unfolding handle_new_payment
  handle_new_payment-Emits event =
      claim_then-Keeps (Emits msg) Emits-refl Emits-trans event.id
        (λ b. run_process (should_run b (attempt_of msg)) event (attempt_of msg) msg.body)
        (claim-Emits event.id)
        (λ b.
          run_process-Keeps (Emits msg) Emits-refl Emits-trans event (attempt_of msg) msg.body
            (process_payment-Emits event) (settle_task-Emits event.id TaskStatus.confirmed)
            connect-Emits (fail_process-Emits (ltb (attempt_of msg) max_attempts) event.id refl)
            (should_run b (attempt_of msg)))
        Emits-refl

  -- The consumer of new payments sends only such messages.
  pub handle_payment_processing-Emits : Keeps (Emits msg) (handle_payment_processing msg)
  unfolding handle_payment_processing
  handle_payment_processing-Emits w =
      lift-Keeps (Emits msg) Emits-refl Emits-trans (handle_new_payment msg)
        handle_new_payment-Emits (decode_new_payment w.env.readers msg.body) w

  handle_processed-Emits :
      (to_str : Value → Text) (event : Event)
      → Keeps (Emits msg) (handle_processed to_str msg event)
  unfolding handle_processed
  handle_processed-Emits to_str event =
      claim_then-Keeps (Emits msg) Emits-refl Emits-trans event.id
        (λ b. run_notify to_str (should_run b (attempt_of msg)) event (attempt_of msg) msg.body)
        (claim-Emits event.id)
        (λ b.
          run_notify-Keeps (Emits msg) Emits-refl Emits-trans to_str event (attempt_of msg) msg.body
            (send_notification-Keeps (Emits msg) Emits-refl Emits-trans
              (λ w n. Emits-nothing w (record w { tick = n }) refl) send_once-Emits to_str event
              none)
            (settle_task-Emits event.id TaskStatus.confirmed) connect-Emits
            (fail_notify-Emits (ltb (attempt_of msg) max_attempts) event.id refl)
            (should_run b (attempt_of msg)))
        Emits-refl

  -- The notifier sends only such messages.
  pub handle_notify_client-Emits :
      (to_str : Value → Text) → Keeps (Emits msg) (handle_notify_client to_str msg)
  unfolding handle_notify_client
  handle_notify_client-Emits to_str w =
      lift-Keeps (Emits msg) Emits-refl Emits-trans (handle_processed to_str msg)
        (handle_processed-Emits to_str) (decode_notify w.env.readers msg.body) w
