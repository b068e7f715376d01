-- ===== src/Broker/Paths.antt =====
-- The way of a message through the bindings that the consumer application declares.
use mco_louna_task.Exec.{Env}
use mco_louna_task.Consumer.Process.{dead_process}
use mco_louna_task.Consumer.Notify.{dead_notify}
use mco_louna_task.Values.{Value, Text, str}
use mco_louna_task.Domain.Event.{Event}
use mco_louna_task.Broker.Topology.{create_app}
use mco_louna_task.Broker.Routes.{dlq, payments_dlx}
use mco_louna_task.Broker.Retry.{create_retry_queues}
use mco_louna_task.Base.{
  All, All-get_elem?, Bool, ap, false, str_eq, ◌≢◌, String, arith, get_elem?, refl, some, ℕ, ◌≡◌,
}

-- `queue` is bound to `exchange` by exactly the key.
abbrev pub IsBound : String → Text → Text → Type 0
IsBound exchange key queue =
    (i : ℕ) × (get_elem? create_app i
      ≡ some (record { exchange = exchange; routing_key = key; queue = queue }))

is_dead : Text → Bool
is_dead (str key) = str_eq key "dead"
is_dead _ = false

keys_not_dead : All (λ b. is_dead b.routing_key ≡ false) create_app
unfolding create_app create_retry_queues is_dead
keys_not_dead = ground arith

no_dead_key :
    (key : Text) (i : ℕ) (queue : Text)
    → key ≡ str dlq.name
    → get_elem? create_app i
      ≢ some (record { exchange = payments_dlx.name; routing_key = key; queue = queue })
unfolding is_dead
no_dead_key key i queue e h = cc (
  All-get_elem? (λ b. is_dead b.routing_key ≡ false) create_app i _ keys_not_dead h,
  ap is_dead e,
)

-- The dead message of the notifier reaches the dead-letter queue. That of the consumer of new
-- payments reaches no queue, if the library takes the name of the queue for the key of a message
-- sent with `queue=`, since the queue has no routing key of its own.
pub dead_messages :
    (env : Env) (attempt : ℕ) (body : Value)
    → env.route dlq.name dlq.routing_key ≡ str dlq.name
    → IsBound
        (dead_notify attempt body).exchange
        (dead_notify attempt body).routing_key
        (str dlq.name)
      × ((queue : Text)
          → ¬ IsBound (dead_process env body).exchange (dead_process env body).routing_key queue)
unfolding create_app
dead_messages env attempt body named = (
  (0, refl),
  λ queue bound. no_dead_key (env.route dlq.name dlq.routing_key) bound.0 queue named bound.1,
)
