-- ===== src/System/Handlers.antt =====
-- The consumers and the poll keep to the specification too: they only make the specified
-- changes of the committed database.
use mco_louna_task.System.Runs.{claim_then-Keeps, run_process-Keeps}
use mco_louna_task.System.Rules.{Keeps, bind-Keeps, lift-Keeps}
use mco_louna_task.UseCase.Process.{process_in_transaction, process_payment}
use mco_louna_task.System.Refinement.{settle_task-Changes, claim_event-db, process_payment-Changes}
use mco_louna_task.Serial.Rebuild.{decode_new_payment}
use mco_louna_task.Domain.Event.{Event}
use mco_louna_task.Consumer.Process.{
  handle_new_payment, publish_dead, dead_process, fail_process, handle_payment_processing,
  process_retry_queues, run_process,
}
use mco_louna_task.Consumer.Message.{
  Message, attempt_of, claim_event, connect, max_attempts, or_index_error, publish, publish_retry,
  retry_delivery, settle_task, should_run,
}
use mco_louna_task.Broker.Retry.{RetryQueue}
use mco_louna_task.Values.{TaskStatus, Uuid, Value, opaque, uuid}
use mco_louna_task.System.Change.{Changes-of_eq, Changes, Changes-trans, unchanged}
use mco_louna_task.Exec.{Delivery, Action, World, ◌>>=◌}
use mco_louna_task.Errors.{Error, err}
use mco_louna_task.Domain.ValueObject.{base_post_init}
use mco_louna_task.Domain.Identity.{create_payment_id}
use mco_louna_task.Base.{
  List, arith, get_elem?, ltb, ℕ, Bool, false, inl, inr, refl, true, ◌≡◌, ◌⊎◌,
}

abbrev pub DbChanges : World → World → Type 0
DbChanges w w' = Changes w.db w'.db

pub DbChanges-trans : (u v w : World) → DbChanges u v → DbChanges v w → DbChanges u w
DbChanges-trans u v w h k = Changes-trans h k

pub DbChanges-refl : (w : World) → DbChanges w w
DbChanges-refl w = unchanged

-- An action makes only the specified changes, whatever world it runs in and however it ends.
abbrev pub Allowed : {A : Type 0} → Action A → Type 0
Allowed m = Keeps DbChanges m

pub then-Allowed :
    {A B : Type 0} (m : Action A) (k : Action B) → Allowed m → Allowed k → Allowed (m >>= λ _. k)
then-Allowed m k hm hk = bind-Keeps DbChanges DbChanges-refl DbChanges-trans (λ _. k) (λ _. hk) m hm

pub uuid_or_rejected :
    (dev : Bool) (v : Value)
    → ((u : Uuid) × (v ≡ uuid u)) ⊎ ((e : Error) × (create_payment_id dev v ≡ err e))
unfolding create_payment_id base_post_init
uuid_or_rejected dev (uuid u) = inl (u, refl)
uuid_or_rejected true (opaque n) = inr (_, refl)
uuid_or_rejected true v = inr (_, refl)
uuid_or_rejected false v = inr (_, refl)

-- Processing changes the committed database as specified, whatever the event carries.
pub process_payment-Allowed : (event : Event) → Allowed (process_payment event)
unfolding process_payment process_in_transaction
process_payment-Allowed event w = elim (uuid_or_rejected w.env.dev event.payment_id) [
  | inl (u, e) ↦ process_payment-Changes u event w e
  | inr (e, h) ↦ Changes-of_eq (ground (arith, h))
]

pub connect-Allowed : Allowed connect
unfolding connect
connect-Allowed w = Changes-of_eq (ground arith)

pub publish-Allowed : (d : Delivery) → Allowed (publish d)
unfolding publish
publish-Allowed d w = Changes-of_eq (ground arith)

pub publish_retry-Allowed :
    (queues : List RetryQueue) (attempt : ℕ) (body : Value)
    → Allowed (publish_retry queues attempt body)
unfolding publish_retry
publish_retry-Allowed queues attempt body =
    lift-Keeps DbChanges DbChanges-refl DbChanges-trans
      (λ q. publish (retry_delivery q attempt body))
      (λ q. publish-Allowed (retry_delivery q attempt body))
      (or_index_error (get_elem? queues attempt))

pub claim-Allowed : (u : Uuid) → Allowed (claim_event u)
claim-Allowed u w = Changes-of_eq (claim_event-db u w)

fail_process-Allowed :
    (again : Bool) (u : Uuid) (attempt : ℕ) (body : Value)
    → Allowed (fail_process again u attempt body)
fail_process-Allowed true u attempt body = publish_retry-Allowed process_retry_queues attempt body
fail_process-Allowed false u attempt body =
    then-Allowed (settle_task u TaskStatus.failed) (publish_dead body)
      (λ w. settle_task-Changes u TaskStatus.failed w (inr refl))
      (λ w. publish-Allowed (dead_process w.env body) w)

handle_new_payment-Allowed :
    (msg : Message) (event : Event) → Allowed (handle_new_payment msg event)
unfolding handle_new_payment
handle_new_payment-Allowed msg event =
    claim_then-Keeps DbChanges DbChanges-refl DbChanges-trans event.id
      (λ claimed. run_process (should_run claimed (attempt_of msg)) event (attempt_of msg) msg.body)
      (claim-Allowed event.id)
      (λ claimed.
        run_process-Keeps DbChanges DbChanges-refl DbChanges-trans event (attempt_of msg) msg.body
          (process_payment-Allowed event)
          (λ w. settle_task-Changes event.id TaskStatus.confirmed w (inl refl)) connect-Allowed
          (fail_process-Allowed (ltb (attempt_of msg) max_attempts) event.id (attempt_of msg)
            msg.body)
          (should_run claimed (attempt_of msg)))
      DbChanges-refl

-- One delivery to the consumer of new payments, whatever its body and however it ends, changes the
-- committed database as specified.
pub handle_payment_processing-Allowed : (msg : Message) → Allowed (handle_payment_processing msg)
unfolding handle_payment_processing
handle_payment_processing-Allowed msg w =
    lift-Keeps DbChanges DbChanges-refl DbChanges-trans (handle_new_payment msg)
      (handle_new_payment-Allowed msg) (decode_new_payment w.env.readers msg.body) w
