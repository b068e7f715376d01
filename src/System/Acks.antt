-- ===== src/System/Acks.antt =====
-- Manual acknowledgement: how often a handler of a message calls `msg.ack()`.
use mco_louna_task.System.Rules.{Keeps, bind-Keeps}
use mco_louna_task.Values.{TaskStatus, Uuid, Value}
use mco_louna_task.UseCase.Process.{emulate_processing}
use mco_louna_task.UseCase.Create.{store_events, update_processed_payment}
use mco_louna_task.Storage.Uow.{begin, commit, with_uow}
use mco_louna_task.Storage.Payments.{get_by_id, update}
use mco_louna_task.Storage.Outbox.{add_events, mark_in_process, mark_processed}
use mco_louna_task.Exec.{Action, Delivery, World, lift, pure, ◌>>=◌}
use mco_louna_task.Domain.Payment.{Payment, pull_events}
use mco_louna_task.Domain.Event.{Event}
use mco_louna_task.Consumer.Message.{
  claim_event, connect, or_index_error, publish, publish_retry, retry_delivery, settle_task,
}
use mco_louna_task.Broker.Retry.{RetryQueue}
use mco_louna_task.Broker.Bus.{publish_event, publish_payment_events}
use mco_louna_task.Base.{List, [], arith, get_elem?, refl, ℕ, ◌∙◌, ◌∷◌, ◌≡◌}

abbrev pub SameAcks : World → World → Type 0
SameAcks w w' = w'.acks ≡ w.acks

pub SameAcks-refl : (w : World) → SameAcks w w
SameAcks-refl w = refl

pub SameAcks-trans : (u v w : World) → SameAcks u v → SameAcks v w → SameAcks u w
SameAcks-trans u v w h k = k ∙ h

-- No acknowledgement, whatever world the action runs in and however it ends.
abbrev pub IsSilent : {A : Type 0} → Action A → Type 0
IsSilent m = Keeps SameAcks m

pub bind-IsSilent :
    {A B : Type 0} (m : Action A) (f : A → Action B)
    → IsSilent m
    → ((a : A) → IsSilent (f a))
    → IsSilent (m >>= f)
bind-IsSilent m f hm hf = bind-Keeps SameAcks SameAcks-refl SameAcks-trans f hf m hm

pub with_uow-IsSilent : {A : Type 0} (m : Action A) → IsSilent m → IsSilent (with_uow m)
with_uow-IsSilent m h w = h (begin w)

-- The statements of the repositories and the calls of the broker.
pub publish_event-IsSilent : (e : Event) → IsSilent (publish_event e)
unfolding publish_event
publish_event-IsSilent e w = ground arith

pub publish_payment_events-IsSilent : (es : List Event) → IsSilent (publish_payment_events es)
unfolding publish_payment_events
publish_payment_events-IsSilent [] w = refl
publish_payment_events-IsSilent (e ∷ es) w =
    bind-IsSilent (publish_event e) (λ _. publish_payment_events es) (publish_event-IsSilent e)
      (λ _. publish_payment_events-IsSilent es) w

pub get_by_id-IsSilent : (u : Uuid) → IsSilent (get_by_id u)
unfolding get_by_id
get_by_id-IsSilent u w = ground arith

pub emulate-IsSilent : (p : Payment) → IsSilent (emulate_processing p)
unfolding emulate_processing
emulate-IsSilent p w = refl

pub update-IsSilent : (p : Payment) → IsSilent (update_processed_payment p)
unfolding update_processed_payment update
update-IsSilent p w = ground arith

pub commit-IsSilent : IsSilent commit
unfolding commit
commit-IsSilent w = ground arith

pub add_events-IsSilent : (es : List Event) → IsSilent (add_events es)
unfolding add_events
add_events-IsSilent [] w = refl
add_events-IsSilent (e ∷ es) w = ground arith

pub store_events-IsSilent : (p : Payment) → IsSilent (store_events p)
unfolding store_events
store_events-IsSilent p =
    bind-IsSilent (add_events (pull_events p).0) (λ _. commit >>= λ _. pure (pull_events p))
      (add_events-IsSilent (pull_events p).0)
      (λ _. bind-IsSilent commit (λ _. pure (pull_events p)) commit-IsSilent (λ _ w. refl))

pub settle_task-IsSilent : (u : Uuid) (s : TaskStatus) → IsSilent (settle_task u s)
unfolding settle_task mark_processed commit
settle_task-IsSilent u s w = ground arith

pub claim-IsSilent : (u : Uuid) → IsSilent (claim_event u)
unfolding claim_event mark_in_process
claim-IsSilent u w = ground arith

pub connect-IsSilent : IsSilent connect
unfolding connect
connect-IsSilent w = ground arith

pub publish-IsSilent : (d : Delivery) → IsSilent (publish d)
unfolding publish
publish-IsSilent d w = ground arith

pub publish_retry-IsSilent :
    (qs : List RetryQueue) (attempt : ℕ) (body : Value) → IsSilent (publish_retry qs attempt body)
unfolding publish_retry
publish_retry-IsSilent qs attempt body =
    bind-IsSilent (lift (or_index_error (get_elem? qs attempt)))
      (λ q. publish (retry_delivery q attempt body)) (λ w. refl)
      (λ q. publish-IsSilent (retry_delivery q attempt body))
