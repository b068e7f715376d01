-- ===== src/Broker/Routes.antt =====
-- The registries of exchanges and queues (infrastructure/broker/routes.py).
use mco_louna_task.Base.{String, Option, none, some}
use mco_louna_task.Domain.Event.{EventClass, event_group, event_key}

-- What the code reads of a `RabbitExchange` and of a `RabbitQueue`.
pub record Exchange : Type 0 where
  pub name : String

pub record Queue : Type 0 where
  pub name : String
  pub routing_key : String

-- `register_exchange` sets the name to the event group, for each of the three classes.
abbrev pub payments_exchange : Exchange
payments_exchange = record { name = event_group EventClass.processed }

abbrev pub payments_dlx : Exchange
payments_dlx = record { name = "payments.dlx" }

-- `register_queue` sets the routing key to the event key.
abbrev pub new_payments_q : Queue
new_payments_q = record { name = "new"; routing_key = event_key EventClass.created }

abbrev pub notify_payments_q : Queue
notify_payments_q = record { name = "processed"; routing_key = event_key EventClass.processed }

-- No routing key is given.
abbrev pub dlq : Queue
dlq = record { name = "dead"; routing_key = "" }

-- EXCHANGE_REGISTRY
unfoldable pub exchange_registry : EventClass → Option Exchange
exchange_registry EventClass.domain = some payments_exchange
exchange_registry EventClass.created = some payments_exchange
exchange_registry EventClass.processed = some payments_exchange

-- QUEUE_REGISTRY
unfoldable pub queue_registry : EventClass → Option Queue
queue_registry EventClass.domain = none
queue_registry EventClass.created = some new_payments_q
queue_registry EventClass.processed = some notify_payments_q
