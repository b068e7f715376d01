-- ===== src/Broker/Bus.antt =====
-- `AMQPEventPublisher` (infrastructure/broker/event_bus.py). The circuit breaker of `pybreaker`
-- and the connection are one reading of the environment: the call published, found the circuit
-- open, or failed.
use mco_louna_task.Interfaces.{PaymentEventBus}
use mco_louna_task.Base.{Option, none, some, List, [], ◌∷◌}
use mco_louna_task.Values.{Value, str}
use mco_louna_task.Errors.{
  Result, ok, err, event_routing, event_serialization, publisher_unavailable, type_error,
  value_error,
}
use mco_louna_task.Domain.Event.{Event, class_of}
use mco_louna_task.Serial.Event.{parse_event_to_message}
use mco_louna_task.Broker.Routes.{Exchange, Queue, exchange_registry, queue_registry}
use mco_louna_task.Exec.{Delivery, Action, pure, raise, lift, draw, send, CallOutcome, ◌>>=◌, ◌>>◌}

-- `QUEUE_REGISTRY[type(event)]` and `EXCHANGE_REGISTRY[type(event)]`: a missing key is a routing error
abbrev pub or_routing_error : {A : Type 0} → Option A → Result A
or_routing_error none = err event_routing
or_routing_error (some a) = ok a

-- `except (TypeError, ValueError)`: a `SerializationError` is neither
abbrev pub map_parse_error : {A : Type 0} → Result A → Result A
map_parse_error (ok a) = ok a
map_parse_error (err type_error) = err event_serialization
map_parse_error (err value_error) = err event_serialization
map_parse_error (err e) = err e

unfoldable pub finish_call : Delivery → CallOutcome → Action (Unit {0})
finish_call d CallOutcome.published = send d
finish_call d CallOutcome.circuit_open = raise publisher_unavailable
finish_call d CallOutcome.failed = raise publisher_unavailable

abbrev pub delivery : Queue → Exchange → Value → Delivery
delivery q exch message = record {
  exchange = exch.name;
  routing_key = str q.routing_key;
  body = message;
  attempt = none;
}

-- one round of the loop
unfoldable pub publish_event : Event → Action (Unit {0})
unfolding queue_registry exchange_registry finish_call
publish_event event = do
  queue_config ← lift (or_routing_error (queue_registry (class_of event)))
  exchange ← lift (or_routing_error (exchange_registry (class_of event)))
  message ← lift (map_parse_error (parse_event_to_message event))
  outcome ← draw (λ e. e.call)
  finish_call (delivery queue_config exchange message) outcome

unfoldable pub publish_payment_events : List Event → Action (Unit {0})
unfolding publish_event
publish_payment_events [] = pure tt
publish_payment_events (event ∷ events) = do publish_event event; publish_payment_events events

-- the publisher as an implementation of the interface
abbrev pub amqp_publisher : PaymentEventBus
amqp_publisher = record { publish_payment_events = publish_payment_events }
