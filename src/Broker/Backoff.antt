-- ===== src/Broker/Backoff.antt =====
-- The retry queues (shared/infra/broker/utils/retry_queue.py), as the two consumers use them.
use mco_louna_task.Values.{Value}
use mco_louna_task.Exec.{Delivery, World}
use mco_louna_task.Errors.{Result, broker_error, err, ok}
use mco_louna_task.Consumer.Message.{
  delay_base, max_attempts, publish, publish_retry, retry_delivery,
}
use mco_louna_task.Broker.Routes.{Exchange, Queue, payments_dlx, payments_exchange}
use mco_louna_task.Broker.Retry.{
  RetryQueue, bind_queues_with_retry, bind_retry_queues, create_retry_queues, retry_queue,
  retry_queues_from,
}
use mco_louna_task.Base.{
  List, [], ap, arith, get_elem?, refl, some, suc, zero, ℕ, ◌*◌, ◌++◌, ◌+◌, ◌<◌, ◌^◌, ◌∙◌, ◌∷◌, ◌≡◌,
}

get_retry_queue :
    (q : Queue) (exch : Exchange) (base first n i : ℕ)
    → i < n
    → get_elem? (retry_queues_from q exch base first n) i
      ≡ some (retry_queue q exch base (first + i))
unfolding retry_queues_from
get_retry_queue q exch base first zero i h = absurd (omega arith)
get_retry_queue q exch base first (suc n) zero h =
    ap (λ k. some (retry_queue q exch base k)) (omega arith)
get_retry_queue q exch base first (suc n) (suc i) h =
    get_retry_queue q exch base (suc first) n i (omega arith)
    ∙ ap (λ k. some (retry_queue q exch base k)) (omega arith)

-- For every attempt below the maximum there is a retry queue; it holds a message for
-- `1000 * base * 2 ** (attempt + 1)` milliseconds and then passes it to the exchange and the
-- routing key that it came from.
pub create_retry_queues-attempt :
    (q : Queue) (exch : Exchange) (base max_attempt i : ℕ)
    → i < max_attempt
    → (r : RetryQueue) × (get_elem? (create_retry_queues q exch base max_attempt) i ≡ some r)
      × (r.message_ttl ≡ 1000 * base * 2 ^ (1 + i))
      × (r.dead_letter_exchange ≡ exch.name)
      × (r.dead_letter_routing_key ≡ q.routing_key)
unfolding create_retry_queues retry_queue
create_retry_queues-attempt q exch base max_attempt i h = (
  retry_queue q exch base (1 + i),
  get_retry_queue q exch base 1 max_attempt i h,
  refl,
  refl,
  refl,
)

get_bound :
    (exch : Exchange) (qs : List RetryQueue) (i : ℕ) (r : RetryQueue)
    → get_elem? qs i ≡ some r
    → get_elem? (bind_retry_queues exch qs) i
      ≡ some (record { exchange = exch.name; routing_key = r.routing_key; queue = r.name })
get_bound exch [] i r h = ground arith
get_bound exch (q ∷ qs) zero r h = ground arith
get_bound exch (q ∷ qs) (suc i) r h = get_bound exch qs i r h

-- What a retry has done: one message, with the next attempt number, at a queue that is bound to
-- the exchange by the key of the message; or nothing, if the broker refused it.
abbrev pub IsRetried : Queue → ℕ → Value → World → Result (Unit {0}) × World → Type 0
IsRetried q attempt body w (ok _, w') =
    (r : RetryQueue) × (w'.sent ≡ w.sent ++ retry_delivery r attempt body ∷ [])
    × (get_elem? (bind_queues_with_retry payments_exchange payments_dlx q delay_base max_attempts)
          (suc attempt)
        ≡ some (record {
          exchange = (retry_delivery r attempt body).exchange;
          routing_key = (retry_delivery r attempt body).routing_key;
          queue = r.name;
        }))
IsRetried q attempt body w (err e, w') = (e ≡ broker_error) × (w'.sent ≡ w.sent)

abbrev pub Handed : Delivery → World → Result (Unit {0}) × World → Type 0
Handed d w (ok _, w') = w'.sent ≡ w.sent ++ d ∷ []
Handed d w (err e, w') = (e ≡ broker_error) × (w'.sent ≡ w.sent)

pub publish-Handed : (d : Delivery) (w : World) → Handed d w (publish d w)
unfolding publish
publish-Handed d w = ground arith

publish_retry-Handed :
    (qs : List RetryQueue) (attempt : ℕ) (body : Value) (w : World) (r : RetryQueue)
    → get_elem? qs attempt ≡ some r
    → Handed (retry_delivery r attempt body) w (publish_retry qs attempt body w)
unfolding publish_retry
publish_retry-Handed qs attempt body w r h = rw h (publish-Handed (retry_delivery r attempt body) w)

bound_queue :
    (q : Queue) (attempt : ℕ) (r : RetryQueue) (body : Value) (w : World)
    (x : Result (Unit {0}) × World)
    → get_elem? (create_retry_queues q payments_exchange delay_base max_attempts) attempt ≡ some r
    → Handed (retry_delivery r attempt body) w x
    → IsRetried q attempt body w x
unfolding bind_queues_with_retry
bound_queue q attempt r body w (ok _, w') found sent = (
  r,
  sent,
  get_bound payments_dlx (create_retry_queues q payments_exchange delay_base max_attempts) attempt r
      found,
)
bound_queue q attempt r body w (err e, w') found h = h

-- A retry below the maximal attempt never raises `IndexError`: it sends the message to a retry
-- queue that the consumer has bound, or raises the broker's error and sends nothing.
publish_retry-IsRetried :
    (q : Queue) (attempt : ℕ) (body : Value) (w : World)
    → attempt < max_attempts
    → IsRetried q attempt body w (
        publish_retry
          (create_retry_queues q payments_exchange delay_base max_attempts)
          attempt
          body
          w)
publish_retry-IsRetried q attempt body w h =
    let (r, found, _, _, _) =
      create_retry_queues-attempt q payments_exchange delay_base max_attempts attempt h in
    bound_queue q attempt r body w
      (publish_retry (create_retry_queues q payments_exchange delay_base max_attempts) attempt body
        w)
      found
      (publish_retry-Handed (create_retry_queues q payments_exchange delay_base max_attempts)
        attempt body w r found)
