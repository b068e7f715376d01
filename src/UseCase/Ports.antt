-- ===== src/UseCase/Ports.antt =====
-- The use cases over any unit of work and any event bus, as they get them (application/handlers).
-- The service runs them with the implementations of the infrastructure.
pub mod Publication
use mco_louna_task.Domain.Repository.{PaymentRepository}
use mco_louna_task.Values.{Text, Uuid, Value, uuid}
use mco_louna_task.UseCase.Query.{
  GetPaymentQueryResponse, fetch_pending_tasks, get_payment, publish_pendings, query_response,
}
use mco_louna_task.UseCase.Process.{emulate_processing, process_in_transaction, process_payment}
use mco_louna_task.UseCase.Create.{
  CreatePaymentCommand, CreatePaymentResponse, build_parts, create_in_transaction, create_payment,
  create_response, create_with, service_create, store_events, update_processed_payment,
}
use mco_louna_task.Storage.Repository.{sql_uow}
use mco_louna_task.Interfaces.{PaymentEventBus, PaymentUow, within}
use mco_louna_task.Exec.{Action, ask, lift, pure, ◌>>=◌, ◌>>◌}
use mco_louna_task.Domain.Payment.{Payment, pull_events}
use mco_louna_task.Domain.Identity.{create_payment_id}
use mco_louna_task.Domain.Event.{Event}
use mco_louna_task.Broker.Bus.{amqp_publisher}
use mco_louna_task.Base.{List, refl, ◌≡◌}

abbrev pub store_events_with : PaymentUow → Payment → Action (List Event × Payment)
store_events_with uow payment = do
  let pulled = pull_events payment
  uow.outbox.add pulled.0
  uow.commit
  pure pulled

-- `CreatePaymentUseCase.__call__`
abbrev pub create_payment_with :
    PaymentUow → PaymentEventBus → CreatePaymentCommand → Action CreatePaymentResponse
create_payment_with uow event_bus command = do
  parts ← build_parts command
  stored ← within uow (create_with uow.payments parts >>= store_events_with uow)
  event_bus.publish_payment_events stored.0
  pure (create_response stored.1)

-- `PaymentService.update_processed_payment`
abbrev update_processed_with : PaymentRepository → Payment → Action Payment
update_processed_with repo payment = do repo.update payment; pure payment

-- the body of `async with uow`
abbrev process_with : PaymentUow → Value → Action (List Event × Payment)
process_with uow payment_id = do
  dev ← ask (λ e. e.dev)
  id ← lift (create_payment_id dev payment_id)
  payment ← uow.payments.get_by_id id.value
  processed ← emulate_processing payment
  updated ← update_processed_with uow.payments processed
  store_events_with uow updated

-- `ProcessPayment.__call__`
abbrev pub process_payment_with : PaymentUow → PaymentEventBus → Event → Action (Unit {0})
process_payment_with uow event_bus event = do
  stored ← within uow (process_with uow event.payment_id)
  event_bus.publish_payment_events stored.0

-- `FetchPendingTasks.__call__`
abbrev pub fetch_pending_tasks_with : PaymentUow → PaymentEventBus → Action (Unit {0})
fetch_pending_tasks_with uow event_bus =
    within uow (do events ← uow.outbox.get_pendings 50 0; event_bus.publish_payment_events events)

-- `GetPayment.__call__`
abbrev pub get_payment_with : PaymentUow → (Value → Text) → Uuid → Action GetPaymentQueryResponse
get_payment_with uow to_str query_id = do
  dev ← ask (λ e. e.dev)
  id ← lift (create_payment_id dev (uuid query_id))
  payment ← within uow (uow.payments.get_by_id id.value)
  pure (query_response to_str payment)

pub create_payment_lem : create_payment_with sql_uow amqp_publisher ≡ create_payment
unfolding create_payment create_in_transaction service_create store_events
create_payment_lem = refl

pub process_payment_lem : process_payment_with sql_uow amqp_publisher ≡ process_payment
unfolding process_payment process_in_transaction update_processed_payment store_events
process_payment_lem = refl

fetch_pending_tasks_lem : fetch_pending_tasks_with sql_uow amqp_publisher ≡ fetch_pending_tasks
unfolding fetch_pending_tasks publish_pendings
fetch_pending_tasks_lem = refl

get_payment_lem : get_payment_with sql_uow ≡ get_payment
unfolding get_payment
get_payment_lem = refl
