-- ===== src/System/Delivery.antt =====
-- The notifier and the poll by the rules of the handlers: requests and publications change no row.
use mco_louna_task.System.Runs.{claim_then-Keeps, run_notify-Keeps, send_notification-Keeps}
use mco_louna_task.System.Rules.{lift-Keeps}
use mco_louna_task.System.Handlers.{
  Allowed, DbChanges, DbChanges-refl, DbChanges-trans, claim-Allowed, connect-Allowed,
  publish-Allowed, publish_retry-Allowed, then-Allowed,
}
use mco_louna_task.Values.{Fields, TaskStatus, Text, Uuid, Value}
use mco_louna_task.UseCase.Query.{fetch_pending_tasks, publish_pendings}
use mco_louna_task.System.Refinement.{settle_task-Changes}
use mco_louna_task.System.Change.{Changes-of_eq, unchanged}
use mco_louna_task.Storage.Uow.{begin}
use mco_louna_task.Storage.Outbox.{get_pendings}
use mco_louna_task.Serial.Rebuild.{decode_notify}
use mco_louna_task.Notifier.Sender.{check_response, send_notification, send_once}
use mco_louna_task.Exec.{Action, Database, World, ◌>>=◌}
use mco_louna_task.Errors.{Result, err, ok}
use mco_louna_task.Domain.Event.{Event}
use mco_louna_task.Consumer.Notify.{
  dead_notify, fail_notify, handle_notify_client, handle_processed, notify_retry_queues, run_notify,
}
use mco_louna_task.Consumer.Message.{
  Message, attempt_of, max_attempts, publish, settle_task, should_run,
}
use mco_louna_task.Broker.Bus.{publish_event, publish_payment_events}
use mco_louna_task.Base.{
  Bool, List, Option, String, [], arith, false, inl, inr, ltb, none, refl, true, ℕ, ◌∙◌, ◌∷◌, ◌≡◌,
}

-- An action leaves the committed state alone.
abbrev Leaves : {A : Type 0} → Action A → Type 0
Leaves m = (w : World) → (m w).1.db ≡ w.db

send_once-Allowed :
    (url : String) (payload : Fields) (timeout : ℕ) → Allowed (send_once url payload timeout)
unfolding send_once check_response
send_once-Allowed url payload timeout w = Changes-of_eq (ground arith)

send_notification-Allowed :
    (to_str : Value → Text) (event : Event) (timeout : Option ℕ)
    → Allowed (send_notification to_str event timeout)
send_notification-Allowed =
    send_notification-Keeps DbChanges DbChanges-refl DbChanges-trans (λ w n. unchanged)
      send_once-Allowed

fail_notify-Allowed :
    (again : Bool) (u : Uuid) (attempt : ℕ) (body : Value)
    → Allowed (fail_notify again u attempt body)
fail_notify-Allowed true u attempt body = publish_retry-Allowed notify_retry_queues attempt body
fail_notify-Allowed false u attempt body =
    then-Allowed (settle_task u TaskStatus.failed) (publish (dead_notify attempt body))
      (λ w. settle_task-Changes u TaskStatus.failed w (inr refl))
      (publish-Allowed (dead_notify attempt body))

handle_processed-Allowed :
    (to_str : Value → Text) (msg : Message) (event : Event)
    → Allowed (handle_processed to_str msg event)
unfolding handle_processed
handle_processed-Allowed to_str msg event =
    claim_then-Keeps DbChanges DbChanges-refl DbChanges-trans event.id
      (λ claimed.
        run_notify to_str (should_run claimed (attempt_of msg)) event (attempt_of msg) msg.body)
      (claim-Allowed event.id)
      (λ claimed.
        run_notify-Keeps DbChanges DbChanges-refl DbChanges-trans to_str event (attempt_of msg)
          msg.body (send_notification-Allowed to_str event none)
          (λ w. settle_task-Changes event.id TaskStatus.confirmed w (inl refl)) connect-Allowed
          (fail_notify-Allowed (ltb (attempt_of msg) max_attempts) event.id (attempt_of msg)
            msg.body)
          (should_run claimed (attempt_of msg)))
      DbChanges-refl

-- One delivery to the notifier, whatever its body and however it ends, changes the committed
-- database as specified.
pub handle_notify_client-Allowed :
    (to_str : Value → Text) (msg : Message) → Allowed (handle_notify_client to_str msg)
unfolding handle_notify_client
handle_notify_client-Allowed to_str msg w =
    lift-Keeps DbChanges DbChanges-refl DbChanges-trans (handle_processed to_str msg)
      (handle_processed-Allowed to_str msg) (decode_notify w.env.readers msg.body) w

publish_event-db : (e : Event) → Leaves (publish_event e)
unfolding publish_event
publish_event-db e w = ground arith

publish_rest :
    (d : Database) (k : Action (Unit {0})) (x : Result (Unit {0}) × World)
    → Leaves k
    → x.1.db ≡ d
    → (((λ (_ : World). x) >>= λ _. k) x.1).1.db ≡ d
publish_rest d k (ok _, w') h e = h w' ∙ e
publish_rest d k (err x, w') h e = e

publish_payment_events-db : (events : List Event) → Leaves (publish_payment_events events)
unfolding publish_payment_events
publish_payment_events-db [] w = refl
publish_payment_events-db (e ∷ es) w =
    publish_rest w.db (publish_payment_events es) (publish_event e w) (publish_payment_events-db es)
      (publish_event-db e w)

pendings_rest :
    (d : Database) (x : Result (List Event) × World)
    → x.1.db ≡ d
    → (((λ (_ : World). x) >>= publish_payment_events) x.1).1.db ≡ d
pendings_rest d (ok es, w') e = publish_payment_events-db es w' ∙ e
pendings_rest d (err x, w') e = e

-- The poll leaves the committed database as it is: no event is marked.
pub fetch_pending_tasks-db : (w : World) → (fetch_pending_tasks w).1.db ≡ w.db
unfolding fetch_pending_tasks publish_pendings get_pendings
fetch_pending_tasks-db w = pendings_rest w.db (get_pendings 50 0 (begin w)) refl
