-- ===== src/Examples/Requests.antt =====
-- The theorems on requests and on whole operations at concrete inputs.
use mco_louna_task.Storage.Numeric.{fits_column, stored_amount}
use mco_louna_task.UseCase.Create.Service.{ByLookup, Guards, create_with-Guards, sql_contract}
use mco_louna_task.Storage.Repository.{sql_payments}
use mco_louna_task.UseCase.Create.Valid.{IsValid, build_parts_iff}
use mco_louna_task.System.Progress.{IsLaterPayment, Served-keeps_payment}
use mco_louna_task.Values.{finite, negsuc, uuid_version}
use mco_louna_task.UseCase.Query.{GetPaymentQueryResponse, get_payment}
use mco_louna_task.UseCase.Process.Outcome.{process_payment-Outcome}
use mco_louna_task.UseCase.Process.{process_payment}
use mco_louna_task.UseCase.Create.Plan.{planned_parts, planned_payment}
use mco_louna_task.UseCase.Create.Outcome.{create_payment-Outcome}
use mco_louna_task.UseCase.Create.{
  CreatePaymentCommand, create_with, CreatePaymentResponse, build_parts, create_in_transaction,
  create_payment, create_response, new_payment, service_create, store_events,
}
use mco_louna_task.System.Served.{
  Served, Served-IsConsistent, deliver_new, empty_db, idle, request_payment, serve_one,
  serve_one-Changes, served,
}
use mco_louna_task.System.Refinement.{claim_event-db}
use mco_louna_task.System.Lookup.{Describes, get_payment-create_payment}
use mco_louna_task.System.Invariant.{IsConsistent}
use mco_louna_task.System.Idempotency.{IsRefused, create_payment-IsRefused}
use mco_louna_task.System.Claims.{claim_event_twice}
use mco_louna_task.System.Change.{Changes}
use mco_louna_task.Storage.Uow.{commit}
use mco_louna_task.Storage.Payments.{add_payment, get_by_key, has_id}
use mco_louna_task.Storage.Outbox.{add_events, row_of_envelope}
use mco_louna_task.Serial.Value.{json_value}
use mco_louna_task.Serial.Event.{parse_event_to_message, serialize_event}
use mco_louna_task.Exec.{PaymentRow, World}
use mco_louna_task.Examples.{
  sample_row, empty_world, pending_db, pending_world, sample_command, sample_env, sample_event,
  sample_message, sample_str, sample_uuid, world_of,
}
use mco_louna_task.Errors.{ok}
use mco_louna_task.Domain.Webhook.{create_webhook_url, is_localhost}
use mco_louna_task.Domain.ValueObject.{base_post_init}
use mco_louna_task.Domain.Timestamp.{create_timestamp, now}
use mco_louna_task.Domain.Metadata.{has_str_keys, create_metadata}
use mco_louna_task.Domain.Identity.{create_idempotency_key, create_payment_id}
use mco_louna_task.Domain.Description.{
  create_description, is_control, match_valid, validate_lenth, validate_pattern,
}
use mco_louna_task.Domain.Amount.{create_amount}
use mco_louna_task.Consumer.Message.{claim_event}
use mco_louna_task.Broker.Bus.{publish_payment_events}
use mco_louna_task.Base.{false, inr, ◌^◌, ◌↔◌, find, refl, some, sym, true, ◌≡◌}
use mco_louna_task.UseCase.Create.Outcome as CreateOutcome
use mco_louna_task.UseCase.Process.Outcome as ProcessOutcome

sample_reply : CreatePaymentResponse
sample_reply = create_response (planned_payment sample_command empty_world)

sample_created : (create_payment sample_command empty_world).0 ≡ ok sample_reply
unfolding create_payment build_parts create_idempotency_key uuid_version create_description
    validate_lenth validate_pattern match_valid is_control create_metadata create_webhook_url
    is_localhost create_in_transaction service_create get_by_key new_payment create_payment_id now
    create_timestamp add_payment store_events serialize_event json_value row_of_envelope commit
    publish_payment_events create_amount base_post_init fits_column stored_amount sample_reply
    create_response has_str_keys add_events parse_event_to_message
sample_created = refl

create_payment-Outcome_example :
    CreateOutcome.Outcome sample_command empty_world (create_payment sample_command empty_world)
create_payment-Outcome_example = create_payment-Outcome sample_command empty_world

process_payment-Outcome_example :
    ProcessOutcome.Outcome
      (sample_uuid 1)
      pending_world
      (process_payment sample_event pending_world)
process_payment-Outcome_example =
    process_payment-Outcome (sample_uuid 1) sample_event pending_world refl

serve_one-Changes_example :
    Changes pending_db
      (serve_one sample_str (request_payment sample_command) (world_of sample_env pending_db)).db
serve_one-Changes_example =
    serve_one-Changes sample_str (request_payment sample_command) (world_of sample_env pending_db)

-- one request, from the empty database
sample_run :
    Served sample_str empty_db
      (serve_one sample_str (request_payment sample_command) empty_world).db
sample_run = served (request_payment sample_command) empty_world idle refl

Served-IsConsistent_example :
    IsConsistent (serve_one sample_str (request_payment sample_command) empty_world).db
Served-IsConsistent_example =
    Served-IsConsistent sample_str
      (serve_one sample_str (request_payment sample_command) empty_world).db sample_run

-- a valid amount of ten quadrillions
abbrev large_command : CreatePaymentCommand
large_command = record sample_command { amount = finite false (10 ^ 18) (negsuc 1) }

create_payment-IsRefused_example : IsRefused empty_world (create_payment large_command empty_world)
unfolding fits_column stored_amount
create_payment-IsRefused_example = create_payment-IsRefused large_command empty_world (inr refl)

abbrev second_world : World
second_world = world_of sample_env (create_payment sample_command empty_world).1.db

get_payment-create_payment_example :
    (r : GetPaymentQueryResponse) × ((get_payment sample_str (sample_uuid 1) second_world).0 ≡ ok r)
    × Describes sample_str sample_command empty_world r
unfolding uuid_version
get_payment-create_payment_example =
    get_payment-create_payment sample_str sample_command empty_world second_world sample_reply
      sample_created refl refl refl

claim_event_twice_example :
    ((claim_event (sample_uuid 2) pending_world).0 ≡ ok true)
    × ((claim_event (sample_uuid 2) pending_world).0 ≡ ok true)
claim_event_twice_example =
    claim_event_twice (sample_uuid 2) pending_world pending_world
      (sym (claim_event-db (sample_uuid 2) pending_world)) refl refl refl

Served-keeps_payment_example :
    (new : PaymentRow) × (find
        (has_id (sample_uuid 1))
        (serve_one sample_str (deliver_new sample_message) pending_world).db.payments
      ≡ some new)
    × IsLaterPayment sample_row new
Served-keeps_payment_example =
    Served-keeps_payment sample_str pending_db
      (serve_one sample_str (deliver_new sample_message) pending_world).db (sample_uuid 1)
      sample_row (served (deliver_new sample_message) pending_world idle refl) refl

build_parts_iff_example :
    ((build_parts sample_command empty_world).0 ≡ ok (planned_parts sample_command))
    ↔ IsValid sample_command empty_world
build_parts_iff_example = build_parts_iff sample_command empty_world

create_with-Guards_example :
    Guards sql_contract.has
      (sample_uuid 900)
      pending_world
      (create_with sql_payments (planned_parts sample_command) pending_world)
    × ByLookup sql_payments
        (planned_parts sample_command)
        (sql_payments.get_by_key (sample_uuid 900) pending_world)
        (create_with sql_payments (planned_parts sample_command) pending_world)
create_with-Guards_example =
    create_with-Guards sql_payments sql_contract (planned_parts sample_command) pending_world
