-- ===== src/Broker/Order.antt =====
-- What `publish_payment_events` (infrastructure/broker/event_bus.py) has sent when it returns or
-- raises.
use mco_louna_task.Values.{Value}
use mco_louna_task.Serial.Event.{parse_event_to_message}
use mco_louna_task.Exec.{Action, draw, lift, Delivery, World, ◌>>=◌}
use mco_louna_task.Errors.{Result, bind, err, ok}
use mco_louna_task.Domain.Event.{Event, class_of}
use mco_louna_task.Broker.Routes.{Exchange, Queue, exchange_registry, queue_registry}
use mco_louna_task.Broker.Bus.{finish_call, delivery, map_parse_error, or_routing_error}
use mco_louna_task.Base.{List, [], length, take, ℕ, ◌++◌, ◌<◌, ◌∷◌, ◌≡◌}

abbrev pub delivery_of : Event → Result Delivery
delivery_of event = bind (or_routing_error (queue_registry (class_of event))) (λ q.
    bind (or_routing_error (exchange_registry (class_of event))) (λ exch.
      bind (map_parse_error (parse_event_to_message event))
        (λ message. ok (delivery q exch message))))

-- The messages of some events, in their order.
abbrev pub deliveries : List Event → Result (List Delivery)
deliveries [] = ok []
deliveries (e ∷ es) = bind (delivery_of e) (λ d. bind (deliveries es) (λ ds. ok (d ∷ ds)))

abbrev pub IsPrefixSent : List Event → World → Result (Unit {0}) × World → Type 0
IsPrefixSent es w (ok _, w') =
    (ds : List Delivery) × (deliveries es ≡ ok ds) × (w'.sent ≡ w.sent ++ ds)
IsPrefixSent es w (err x, w') =
    (n : ℕ) × (ds : List Delivery) × (n < length es)
    × (deliveries (take n es) ≡ ok ds)
    × (w'.sent ≡ w.sent ++ ds)

abbrev OneSent : Result Delivery → World → Result (Unit {0}) × World → Type 0
OneSent m w (ok _, w') = (d : Delivery) × (m ≡ ok d) × (w'.sent ≡ w.sent ++ d ∷ [])
OneSent m w (err x, w') = w'.sent ≡ w.sent

-- One round, from what its three lookups gave.
round : Result Queue → Result Exchange → Result Value → Action (Unit {0})
round qr er mr = lift qr >>= λ q. lift er >>= λ exch.
    lift mr >>= λ message. draw (λ e. e.call) >>= finish_call (delivery q exch message)
