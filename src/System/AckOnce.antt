-- ===== src/System/AckOnce.antt =====
-- The two handlers acknowledge a message exactly if they return.
use mco_louna_task.System.Runs.{run_process-Keeps}
use mco_louna_task.Values.{TaskStatus, Uuid, Value}
use mco_louna_task.UseCase.Process.{emulate_processing, process_in_transaction, process_payment}
use mco_louna_task.UseCase.Create.{store_events, update_processed_payment}
use mco_louna_task.System.Acks.{
  SameAcks, SameAcks-refl, SameAcks-trans, IsSilent, bind-IsSilent, claim-IsSilent,
  connect-IsSilent, emulate-IsSilent, get_by_id-IsSilent, publish-IsSilent,
  publish_payment_events-IsSilent, publish_retry-IsSilent, settle_task-IsSilent,
  store_events-IsSilent, update-IsSilent, with_uow-IsSilent,
}
use mco_louna_task.Storage.Uow.{with_uow}
use mco_louna_task.Storage.Payments.{get_by_id}
use mco_louna_task.Serial.Rebuild.{decode_new_payment}
use mco_louna_task.Exec.{Action, World, ack, lift, ◌>>=◌}
use mco_louna_task.Errors.{Result, err, ok}
use mco_louna_task.Domain.Payment.{Payment}
use mco_louna_task.Domain.Identity.{create_payment_id}
use mco_louna_task.Domain.Event.{Event}
use mco_louna_task.Consumer.Process.{
  dead_process, fail_process, handle_new_payment, handle_payment_processing, process_retry_queues,
  publish_dead, run_process,
}
use mco_louna_task.Consumer.Message.{
  Message, attempt_of, claim_event, max_attempts, settle_task, should_run,
}
use mco_louna_task.Broker.Bus.{publish_payment_events}
use mco_louna_task.Base.{Bool, List, arith, false, ltb, refl, true, ℕ, ◌+◌, ◌≡◌}

-- Processing, from the checked identifier.
settle_and_store : Uuid → Action (List Event × Payment)
settle_and_store u = get_by_id u >>= λ payment. emulate_processing payment >>= λ processed.
    update_processed_payment processed >>= λ updated. store_events updated

settle_and_store-IsSilent : (u : Uuid) → IsSilent (settle_and_store u)
unfolding settle_and_store
settle_and_store-IsSilent u =
    bind-IsSilent (get_by_id u)
      (λ payment. emulate_processing payment >>= λ processed.
        update_processed_payment processed >>= λ updated. store_events updated)
      (get_by_id-IsSilent u)
      (λ payment.
        bind-IsSilent (emulate_processing payment)
          (λ processed. update_processed_payment processed >>= λ updated. store_events updated)
          (emulate-IsSilent payment)
          (λ processed.
            bind-IsSilent (update_processed_payment processed) store_events
              (update-IsSilent processed) store_events-IsSilent))

process_payment-IsSilent : (event : Event) → IsSilent (process_payment event)
unfolding process_payment process_in_transaction settle_and_store
process_payment-IsSilent event w =
    bind-IsSilent
      (with_uow
        (lift (create_payment_id w.env.dev event.payment_id) >>= λ id. settle_and_store id.value))
      (λ stored. publish_payment_events stored.0)
      (with_uow-IsSilent
        (lift (create_payment_id w.env.dev event.payment_id) >>= λ id. settle_and_store id.value)
        (bind-IsSilent (lift (create_payment_id w.env.dev event.payment_id))
          (λ id. settle_and_store id.value) (λ v. refl) (λ id. settle_and_store-IsSilent id.value)))
      (λ stored. publish_payment_events-IsSilent stored.0) w

fail_process-IsSilent :
    (again : Bool) (u : Uuid) (attempt : ℕ) (body : Value)
    → IsSilent (fail_process again u attempt body)
fail_process-IsSilent true u attempt body = publish_retry-IsSilent process_retry_queues attempt body
fail_process-IsSilent false u attempt body =
    bind-IsSilent (settle_task u TaskStatus.failed) (λ _. publish_dead body)
      (settle_task-IsSilent u TaskStatus.failed)
      (λ _ w. publish-IsSilent (dead_process w.env body) w)

-- One acknowledgement on return, none on an exception.
abbrev pub IsAcked : World → Result (Unit {0}) × World → Type 0
IsAcked w (ok _, w') = w'.acks ≡ w.acks + 1
IsAcked w (err _, w') = w'.acks ≡ w.acks

pub ack_after :
    (m : Action (Unit {0})) (w v : World)
    → IsSilent m
    → v.acks ≡ w.acks
    → IsAcked w ((m >>= λ _. ack) v)
ack_after m w v h same = ground (arith, h v)

pub claim_then :
    (u : Uuid) (run : Bool → Action (Unit {0})) (w : World)
    → ((b : Bool) → IsSilent (run b))
    → IsAcked w ((claim_event u >>= λ b. run b >>= λ _. ack) w)
claim_then u run w h = go (claim_event u w) (claim-IsSilent u w)
  where
    go :
        (x : Result Bool × World)
        → x.1.acks ≡ w.acks
        → IsAcked w (((λ (_ : World). x) >>= λ b. run b >>= λ _. ack) w)
    go (ok b, v) same = ack_after (run b) w v (h b) same
    go (err e, v) same = same

handle_new_payment-IsAcked :
    (msg : Message) (event : Event) (w : World) → IsAcked w (handle_new_payment msg event w)
unfolding handle_new_payment
handle_new_payment-IsAcked msg event w =
    claim_then event.id
      (λ b. run_process (should_run b (attempt_of msg)) event (attempt_of msg) msg.body) w
      (λ b.
        run_process-Keeps SameAcks SameAcks-refl SameAcks-trans event (attempt_of msg) msg.body
          (process_payment-IsSilent event) (settle_task-IsSilent event.id TaskStatus.confirmed)
          connect-IsSilent
          (fail_process-IsSilent (ltb (attempt_of msg) max_attempts) event.id (attempt_of msg)
            msg.body)
          (should_run b (attempt_of msg)))

pub decoded_then :
    (r : Result Event) (f : Event → Action (Unit {0})) (w : World)
    → ((e : Event) → IsAcked w (f e w))
    → IsAcked w ((lift r >>= f) w)
decoded_then (ok e) f w h = h e
decoded_then (err x) f w h = refl

-- The consumer of new payments acknowledges a message exactly once if it returns, and not at all if
-- it raises, whatever the message and the world.
pub handle_payment_processing-IsAcked :
    (msg : Message) (w : World) → IsAcked w (handle_payment_processing msg w)
unfolding handle_payment_processing
handle_payment_processing-IsAcked msg w =
    decoded_then (decode_new_payment w.env.readers msg.body) (handle_new_payment msg) w
      (λ event. handle_new_payment-IsAcked msg event w)
