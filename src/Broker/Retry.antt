-- ===== src/Broker/Retry.antt =====
-- `create_retry_queues` (shared/infra/broker/utils/retry_queue.py) and the bindings that
-- `bind_queues_with_retry_to_exch` (bind_queues.py) declares. The delay in a name is kept as a
-- number.
use mco_louna_task.Base.{ℕ, zero, suc, ◌*◌, ◌^◌, String, List, [], ◌∷◌}
use mco_louna_task.Values.{Text, str, num_text, cat}
use mco_louna_task.Broker.Routes.{Exchange, Queue}

pub record RetryQueue : Type 0 where
  pub name : Text
  pub routing_key : Text
  pub message_ttl : ℕ
  pub dead_letter_exchange : String
  pub dead_letter_routing_key : String

-- `{retry_base * 2**attempt}s`
abbrev pub delay_text : ℕ → ℕ → Text
delay_text base attempt = cat (num_text (base * 2 ^ attempt)) (str "s")

unfoldable pub retry_queue : Queue → Exchange → ℕ → ℕ → RetryQueue
retry_queue base_queue after_expire_exch base attempt = record {
  name =
      cat (str "payments.")
        (cat (str base_queue.routing_key) (cat (str ".retry.") (delay_text base attempt)));
  routing_key = cat (str base_queue.routing_key) (cat (str ".retry.") (delay_text base attempt));
  message_ttl = 1000 * base * 2 ^ attempt;
  dead_letter_exchange = after_expire_exch.name;
  dead_letter_routing_key = base_queue.routing_key;
}

-- the comprehension over `range(first, first + n)`
unfoldable pub retry_queues_from : Queue → Exchange → ℕ → ℕ → ℕ → List RetryQueue
unfolding retry_queue
retry_queues_from q exch base first zero = []
retry_queues_from q exch base first (suc n) =
    retry_queue q exch base first ∷ retry_queues_from q exch base (suc first) n

unfoldable pub create_retry_queues : Queue → Exchange → ℕ → ℕ → List RetryQueue
unfolding retry_queues_from
create_retry_queues q exch base max_attempt = retry_queues_from q exch base 1 max_attempt

pub record Binding : Type 0 where
  pub exchange : String
  pub routing_key : Text
  pub queue : Text

abbrev pub bind_queue : Exchange → Queue → Binding
bind_queue exch q = record {
  exchange = exch.name;
  routing_key = str q.routing_key;
  queue = str q.name;
}

abbrev pub bind_retry_queues : Exchange → List RetryQueue → List Binding
bind_retry_queues exch [] = []
bind_retry_queues exch (q ∷ qs) =
    record { exchange = exch.name; routing_key = q.routing_key; queue = q.name }
    ∷ bind_retry_queues exch qs

-- `bind_queues_with_retry_to_exch`
unfoldable pub bind_queues_with_retry : Exchange → Exchange → Queue → ℕ → ℕ → List Binding
unfolding create_retry_queues
bind_queues_with_retry exch dead_exch q base max_attempt =
    bind_queue exch q ∷ bind_retry_queues dead_exch (create_retry_queues q exch base max_attempt)
