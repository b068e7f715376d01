-- ===== src/Examples/Interfaces.antt =====
-- The theorems on the HTTP interface, the broker's bindings and the poll at concrete inputs.
use mco_louna_task.Consumer.Process.{on_process_error}
use mco_louna_task.Consumer.Notify.{on_notify_error}
use mco_louna_task.Broker.Returns.{ReturnsTo, errors-ReturnTo}
use mco_louna_task.UseCase.Process.{process_payment}
use mco_louna_task.UseCase.Ports.Publication.{AsksToCreate, AsksToProcess, use_cases-Asks}
use mco_louna_task.UseCase.Ports.{create_payment_with, process_payment_with}
use mco_louna_task.UseCase.Create.{create_payment}
use mco_louna_task.Storage.Repository.{sql_uow}
use mco_louna_task.Interfaces.{PaymentEventBus}
use mco_louna_task.Values.{none_value}
use mco_louna_task.System.Served.{idle, request_payment, serve_one, served}
use mco_louna_task.System.Relay.{handle_bad_events-sends}
use mco_louna_task.System.Mail.{mail}
use mco_louna_task.System.Consumers.{consume, consume-IsAcked, new_payments}
use mco_louna_task.System.AckOnce.{IsAcked}
use mco_louna_task.Storage.Pages.{IsPage, pending_rows-IsPage}
use mco_louna_task.Storage.Outbox.{pending_rows}
use mco_louna_task.Serial.Roundtrip.{of_processing, republish, restore}
use mco_louna_task.Serial.Event.{parse_event_to_message}
use mco_louna_task.Exec.{raise, OutboxRow, World}
use mco_louna_task.Examples.{
  empty_world, pending_db, pending_world, sample_command, sample_env, sample_event, sample_message,
  sample_payment, sample_str, sample_uuid, world_of,
}
use mco_louna_task.Errors.{http_timeout, publisher_unavailable, ok}
use mco_louna_task.Domain.Payment.{payment_fields, processed_event}
use mco_louna_task.Domain.FieldTypes.{AreDomainFields, aggregate_post_init_iff}
use mco_louna_task.Domain.Aggregate.{aggregate_post_init}
use mco_louna_task.Consumer.Poll.{handle_bad_events}
use mco_louna_task.Broker.Routes.{new_payments_q, notify_payments_q}
use mco_louna_task.Broker.Bus.{amqp_publisher}
use mco_louna_task.Base.{List, arith, false, map, none, refl, some, true, ◌↔◌, ◌≡◌}
use mco_louna_task.Errors.{◌>>=◌}
use mco_louna_task.Http.Routes.{CreateRequest}

abbrev sample_request : CreateRequest
sample_request = record { x_api_key = some "dev-key"; idempotency_key = "key"; body = "{}" }

aggregate_post_init_iff_example :
    (aggregate_post_init true false (payment_fields sample_payment) ≡ ok tt)
    ↔ AreDomainFields (payment_fields sample_payment)
aggregate_post_init_iff_example = aggregate_post_init_iff (payment_fields sample_payment)

errors-ReturnTo_example :
    ReturnsTo new_payments_q 2 none_value pending_world
      (on_process_error (sample_uuid 2) 2 none_value pending_world)
    × ReturnsTo notify_payments_q 2 none_value pending_world
        (on_notify_error (sample_uuid 2) 2 none_value http_timeout pending_world)
errors-ReturnTo_example =
    errors-ReturnTo (sample_uuid 2) 2 none_value http_timeout pending_world (omega arith)

pending_rows-IsPage_example :
    IsPage 50 0 (λ _. false) pending_db.outbox (pending_rows 50 0 (λ _. false) pending_db.outbox)
pending_rows-IsPage_example = pending_rows-IsPage 50 0 (λ _. false) pending_db.outbox

consume-IsAcked_example :
    IsAcked pending_world (consume sample_str new_payments sample_message pending_world)
consume-IsAcked_example = consume-IsAcked sample_str new_payments sample_message pending_world

republish_example :
    (restore (processed_event (sample_uuid 3) 61 none_value sample_payment)
      >>= parse_event_to_message)
    ≡ parse_event_to_message (processed_event (sample_uuid 3) 61 none_value sample_payment)
republish_example =
    republish (processed_event (sample_uuid 3) 61 none_value sample_payment)
      (of_processing (sample_uuid 3) 61 none sample_payment)

-- one request, and then a round of the poll
abbrev polled_world : World
polled_world =
    world_of sample_env (serve_one sample_str (request_payment sample_command) empty_world).db

polled_rows : List OutboxRow
polled_rows = pending_rows 50 0 (λ _. false) polled_world.db.outbox

handle_bad_events-sends_example :
    ((handle_bad_events polled_world).0 ≡ ok tt)
    × ((handle_bad_events polled_world).1.sent ≡ map mail polled_rows)
    × ((handle_bad_events polled_world).1.db ≡ polled_world.db)
unfolding polled_rows
handle_bad_events-sends_example =
    handle_bad_events-sends sample_str polled_world
      (served (request_payment sample_command) empty_world idle refl) (λ n. refl) (λ n. refl)

-- a bus that is down
abbrev broken_bus : PaymentEventBus
broken_bus = record { publish_payment_events = λ _. raise publisher_unavailable }

use_cases-Asks_example :
    AsksToCreate broken_bus sample_command pending_world
      (create_payment_with sql_uow broken_bus sample_command pending_world)
    × AsksToProcess broken_bus
        (sample_uuid 1)
        pending_world
        (process_payment_with sql_uow broken_bus sample_event pending_world)
    × (create_payment_with sql_uow amqp_publisher ≡ create_payment)
    × (process_payment_with sql_uow amqp_publisher ≡ process_payment)
use_cases-Asks_example =
    use_cases-Asks broken_bus sample_command (sample_uuid 1) sample_event pending_world refl
