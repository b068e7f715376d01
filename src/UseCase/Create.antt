-- ===== src/UseCase/Create.antt =====
-- `PaymentService` (payments/domain/service.py) and `CreatePaymentUseCase`
-- (application/handlers/commands/create.py). The `@retry` on the class wraps the constructor, so
-- one call of an instance makes one attempt.
pub mod Plan
pub mod Validation
pub mod Service
pub mod Outcome
pub mod Valid
pub mod Calm
use mco_louna_task.Storage.Repository.{sql_payments}
use mco_louna_task.Domain.Repository.{PaymentRepository}
use mco_louna_task.Base.{String, Option, none, some, List, []}
use mco_louna_task.Values.{
  Uuid, Decimal, Datetime, Currency, PaymentStatus, Text, Fields, decimal, uuid, dict, uuid_text,
}
use mco_louna_task.Errors.{simple_error, exists}
use mco_louna_task.Domain.ValueObject.{ValueObject}
use mco_louna_task.Domain.Amount.{create_amount}
use mco_louna_task.Domain.Description.{create_description}
use mco_louna_task.Domain.Identity.{create_payment_id, create_idempotency_key}
use mco_louna_task.Domain.Metadata.{create_metadata}
use mco_louna_task.Domain.Timestamp.{now}
use mco_louna_task.Domain.Webhook.{create_webhook_url}
use mco_louna_task.Domain.Event.{Event}
use mco_louna_task.Domain.Payment.{Payment, post_init, pull_events}
use mco_louna_task.Storage.Payments.{get_by_key, add_payment, update}
use mco_louna_task.Storage.Outbox.{add_events}
use mco_louna_task.Storage.Uow.{with_uow, commit}
use mco_louna_task.Broker.Bus.{publish_payment_events}
use mco_louna_task.Exec.{Action, pure, raise, lift, draw, ask, ◌>>=◌, ◌>>◌}

pub record CreatePaymentCommand : Type 0 where
  pub amount : Decimal
  pub currency : Currency
  pub key : Uuid
  pub description : String
  pub metadata : Fields
  pub webhook_url : String

-- The value objects that are built from a command.
pub record Parts : Type 0 where
  pub amount : ValueObject Decimal
  pub currency : Currency
  pub key : ValueObject Uuid
  pub description : ValueObject String
  pub metadata : ValueObject Fields
  pub webhook_url : ValueObject String

unfoldable pub build_parts : CreatePaymentCommand → Action Parts
build_parts command = do
  dev ← ask (λ e. e.dev)
  urlparse ← ask (λ e. e.urlparse)
  url_validate ← ask (λ e. e.url_validate)
  amount ← lift (create_amount dev (decimal command.amount))
  key ← lift (create_idempotency_key dev (uuid command.key))
  descr ← lift (create_description dev command.description)
  metadata ← lift (create_metadata dev (dict command.metadata))
  webhook ← lift (create_webhook_url urlparse url_validate dev command.webhook_url)
  pure (record {
    amount = amount;
    currency = command.currency;
    key = key;
    description = descr;
    metadata = metadata;
    webhook_url = webhook;
  })

abbrev pub fresh_payment : Parts → ValueObject Uuid → ValueObject Datetime → Payment
fresh_payment parts id created_at = record {
  id = id;
  amount = parts.amount;
  currency = parts.currency;
  description = parts.description;
  metadata = parts.metadata;
  key = parts.key;
  webhook_url = parts.webhook_url;
  status = PaymentStatus.pending;
  created_at = created_at;
  processed_at = none;
  events = [];
}

-- `Payment(...)`: the default factories draw the identifier and the creation time, and
-- `__post_init__` those of the event
unfoldable pub new_payment : Parts → Action Payment
unfolding post_init
new_payment parts = do
  dev ← ask (λ e. e.dev)
  u ← draw (λ e. e.uuid4)
  id ← lift (create_payment_id dev (uuid u))
  t ← draw (λ e. e.clock)
  created_at ← lift (now dev t)
  event_id ← draw (λ e. e.uuid4)
  at ← draw (λ e. e.clock)
  lift (post_init dev event_id at (fresh_payment parts id created_at))

-- `if payment_exists: raise`
abbrev pub raise_if_exists : Option Payment → Action (Unit {0})
raise_if_exists none = pure tt
raise_if_exists (some _) = raise (simple_error exists "Payment already exists")

-- `PaymentService.create`, with the repository of the service
abbrev pub create_with : PaymentRepository → Parts → Action Payment
create_with repo parts = do
  payment_exists ← repo.get_by_key parts.key.value
  raise_if_exists payment_exists
  payment ← new_payment parts
  repo.add payment
  pure payment

-- the service of the use case, whose repository is that of the unit of work
unfoldable pub service_create : Parts → Action Payment
service_create = create_with sql_payments

-- `PaymentService.update_processed_payment`
unfoldable pub update_processed_payment : Payment → Action Payment
update_processed_payment payment = do update payment; pure payment

-- `events = payment.pull_events()`, `outbox.add(events)`, `commit()`: the events and the payment
unfoldable pub store_events : Payment → Action (List Event × Payment)
unfolding pull_events
store_events payment = do let pulled = pull_events payment; add_events pulled.0; commit; pure pulled

-- the body of `async with uow`
unfoldable pub create_in_transaction : Parts → Action (List Event × Payment)
create_in_transaction parts = do payment ← service_create parts; store_events payment

pub record CreatePaymentResponse : Type 0 where
  pub payment_id : Text
  pub status : PaymentStatus
  pub created_at : Datetime

-- `CreatePaymentResponse.from_domain`
unfoldable pub create_response : Payment → CreatePaymentResponse
create_response p = record {
  payment_id = uuid_text p.id.value;
  status = p.status;
  created_at = p.created_at.value;
}

-- `CreatePaymentUseCase.__call__`: each publisher error is raised again
unfoldable pub create_payment : CreatePaymentCommand → Action CreatePaymentResponse
create_payment command = do
  parts ← build_parts command
  stored ← with_uow (create_in_transaction parts)
  publish_payment_events stored.0
  pure (create_response stored.1)
