-- ===== src/Broker/Topology.antt =====
-- What the consumer application declares at its start (`create_app`,
-- src/payments/presentation/ampq/factory.py): the bindings of queues to exchanges.
use mco_louna_task.Consumer.Message.{delay_base, max_attempts}
use mco_louna_task.Broker.Routes.{
  Exchange, Queue, dlq, new_payments_q, notify_payments_q, payments_dlx, payments_exchange,
}
use mco_louna_task.Broker.Retry.{Binding, bind_queue, bind_queues_with_retry}
use mco_louna_task.Base.{List, [], ◌++◌, ◌∷◌}

-- `bind_queues_to_exch` with a list of queues
abbrev pub bind_queues : Exchange → List Queue → List Binding
bind_queues exch [] = []
bind_queues exch (q ∷ qs) = bind_queue exch q ∷ bind_queues exch qs

-- the bindings of `create_app`, in the order of its calls
unfoldable pub create_app : List Binding
unfolding bind_queues_with_retry
create_app =
    bind_queues payments_dlx (dlq ∷ [])
    ++ bind_queues_with_retry payments_exchange payments_dlx new_payments_q delay_base max_attempts
    ++ bind_queues_with_retry payments_exchange payments_dlx notify_payments_q delay_base
        max_attempts
