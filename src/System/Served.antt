-- ===== src/System/Served.antt =====
-- Runs of the service: any sequence of requests, deliveries and polls, each in a world of its own
-- that shares only the committed database with the one before.
use mco_louna_task.Values.{Text, Uuid, Value}
use mco_louna_task.UseCase.Query.{fetch_pending_tasks, get_payment}
use mco_louna_task.UseCase.Create.{CreatePaymentCommand, create_payment}
use mco_louna_task.System.Refinement.{create_payment-Changes}
use mco_louna_task.System.Invariant.{Changes-IsConsistent, IsConsistent}
use mco_louna_task.System.Handlers.{
  Allowed, connect-Allowed, handle_payment_processing-Allowed, then-Allowed,
}
use mco_louna_task.System.Delivery.{fetch_pending_tasks-db, handle_notify_client-Allowed}
use mco_louna_task.System.Change.{Changes, Changes-trans, Changes-of_eq, unchanged}
use mco_louna_task.Storage.Payments.{get_by_id}
use mco_louna_task.Exec.{Database, World}
use mco_louna_task.Consumer.Process.{handle_payment_processing}
use mco_louna_task.Consumer.Poll.{handle_bad_events, run_periodically}
use mco_louna_task.Consumer.Notify.{handle_notify_client}
use mco_louna_task.Consumer.Message.{Message, connect}
use mco_louna_task.Base.{[], arith, subst, suc, zero, ℕ, ◌≡◌}

pub data Operation : Type 0 where
  request_payment : CreatePaymentCommand → Operation
  request_details : Uuid → Operation
  deliver_new : Message → Operation
  deliver_processed : Message → Operation
  poll : ℕ → Operation

-- The entry points; an exception ends the operation.
unfoldable pub serve_one : (Value → Text) → Operation → World → World
serve_one to_str (request_payment c) w = (create_payment c w).1
serve_one to_str (request_details u) w = (get_payment to_str u w).1
serve_one to_str (deliver_new msg) w = (handle_payment_processing msg w).1
serve_one to_str (deliver_processed msg) w = (handle_notify_client to_str msg w).1
serve_one to_str (poll rounds) w = run_periodically rounds handle_bad_events w

-- `d'` is reached from `d`. Every step may meet another environment: other locks, clocks, outcomes.
pub data Served (to_str : Value → Text) (d : Database) : Database → Type 0 where
  idle : Served to_str d d
  served :
      {d' : Database} (op : Operation) (w : World)
      → Served to_str d d'
      → w.db ≡ d'
      → Served to_str d (serve_one to_str op w).db

bad_events-Allowed : Allowed handle_bad_events
unfolding handle_bad_events
bad_events-Allowed =
    then-Allowed connect fetch_pending_tasks connect-Allowed
      (λ w. Changes-of_eq (fetch_pending_tasks-db w))

periodic-Changes :
    (rounds : ℕ) (w : World) → Changes w.db (run_periodically rounds handle_bad_events w).db
unfolding run_periodically
periodic-Changes zero w = unchanged
periodic-Changes (suc rounds) w =
    Changes-trans (bad_events-Allowed w) (periodic-Changes rounds (handle_bad_events w).1)

-- Reading a payment commits nothing.
pub get_payment-db :
    (to_str : Value → Text) (u : Uuid) (w : World) → (get_payment to_str u w).1.db ≡ w.db
unfolding get_payment get_by_id
get_payment-db to_str u w = ground arith

-- Every operation of the service, in every world, takes the committed database through a sequence
-- of the specified changes: a new payment together with its pending event, a settled payment
-- together with the pending event of its result, or the final status of an event.
-- The INSERT of an event does nothing if the outbox has its identifier already.
pub serve_one-Changes :
    (to_str : Value → Text) (op : Operation) (w : World) → Changes w.db (serve_one to_str op w).db
unfolding serve_one
serve_one-Changes to_str (request_payment c) w = create_payment-Changes c w
serve_one-Changes to_str (request_details u) w = Changes-of_eq (get_payment-db to_str u w)
serve_one-Changes to_str (deliver_new msg) w = handle_payment_processing-Allowed msg w
serve_one-Changes to_str (deliver_processed msg) w = handle_notify_client-Allowed to_str msg w
serve_one-Changes to_str (poll rounds) w = periodic-Changes rounds w

pub Served-Changes : (to_str : Value → Text) (d d' : Database) → Served to_str d d' → Changes d d'
Served-Changes to_str d d' idle = unchanged
Served-Changes to_str d d' (served {d' = e} op w h same) =
    Changes-trans (Served-Changes to_str d e h)
      (subst (λ x. Changes x (serve_one to_str op w).db) same (serve_one-Changes to_str op w))

abbrev pub empty_db : Database
empty_db = record { payments = []; outbox = [] }

pub empty_db-IsConsistent : IsConsistent empty_db
empty_db-IsConsistent = record { ids = tt; keys = tt; events = tt; stamps = tt }

-- In every state that the service reaches from an empty database, whatever the operations, their
-- order and what each meets: no two payments share an identifier or an idempotency key, no two
-- events share an identifier, and a payment has a processing time exactly if it is settled.
pub Served-IsConsistent :
    (to_str : Value → Text) (d : Database) → Served to_str empty_db d → IsConsistent d
Served-IsConsistent to_str d h =
    Changes-IsConsistent empty_db d (Served-Changes to_str empty_db d h) empty_db-IsConsistent
