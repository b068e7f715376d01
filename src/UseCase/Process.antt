-- ===== src/UseCase/Process.antt =====
-- `ProcessPayment` (application/handlers/events/process.py). The delay of the simulated gateway
-- changes no state; its answer is a reading of the environment.
pub mod Plan
pub mod Outcome
pub mod Calm
use mco_louna_task.Base.{ℕ, Bool, true, false, List}
use mco_louna_task.Values.{Uuid, Value}
use mco_louna_task.Errors.{Result}
use mco_louna_task.Domain.Identity.{create_payment_id}
use mco_louna_task.Domain.Event.{Event}
use mco_louna_task.Domain.Payment.{Payment, mark_as_succeeded, mark_as_failed}
use mco_louna_task.Storage.Payments.{get_by_id}
use mco_louna_task.Storage.Uow.{with_uow}
use mco_louna_task.Broker.Bus.{publish_payment_events}
use mco_louna_task.UseCase.Create.{update_processed_payment, store_events}
use mco_louna_task.Exec.{◌>>◌, Action, lift, draw, ask, ◌>>=◌}

abbrev pub mark : Bool → Bool → ℕ → Uuid → ℕ → Payment → Result Payment
mark true dev at event_id event_at p = mark_as_succeeded dev at event_id event_at p
mark false dev at event_id event_at p = mark_as_failed dev at event_id event_at "simulated error" p

-- `_emulate_processing`
unfoldable pub emulate_processing : Payment → Action Payment
emulate_processing payment = do
  dev ← ask (λ e. e.dev)
  success ← draw (λ e. e.success)
  at ← draw (λ e. e.clock)
  event_id ← draw (λ e. e.uuid4)
  event_at ← draw (λ e. e.clock)
  lift (mark success dev at event_id event_at payment)

-- the body of `async with uow`
unfoldable pub process_in_transaction : Value → Action (List Event × Payment)
process_in_transaction payment_id = do
  dev ← ask (λ e. e.dev)
  id ← lift (create_payment_id dev payment_id)
  payment ← get_by_id id.value
  processed ← emulate_processing payment
  updated ← update_processed_payment processed
  store_events updated

-- `ProcessPayment.__call__`
unfoldable pub process_payment : Event → Action (Unit {0})
process_payment event = do
  stored ← with_uow (process_in_transaction event.payment_id)
  publish_payment_events stored.0
