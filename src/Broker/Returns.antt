-- ===== src/Broker/Returns.antt =====
-- How a message that a consumer could not handle comes back to it: `on_process_error` and
-- `on_notify_error` with the retry queues and the bindings of the consumer application.
use mco_louna_task.Values.{Uuid, Value, str}
use mco_louna_task.Exec.{Delivery, World, ◌>>=◌}
use mco_louna_task.Errors.{Error, Result, broker_error, err, ok}
use mco_louna_task.Consumer.Process.{on_process_error, process_retry_queues}
use mco_louna_task.Consumer.Notify.{notify_retry_queues, on_notify_error}
use mco_louna_task.Consumer.Message.{connect, publish, publish_retry, retry_delivery}
use mco_louna_task.Broker.Topology.{create_app}
use mco_louna_task.Broker.Routes.{Queue, new_payments_q, notify_payments_q, payments_exchange}
use mco_louna_task.Broker.Retry.{RetryQueue, create_retry_queues}
use mco_louna_task.Broker.Paths.{IsBound}
use mco_louna_task.Base.{
  ◌*◌, ◌+◌, ◌^◌, ◌++◌, ◌∷◌, [], List, false, ◌⊎◌, arith, get_elem?, refl, some, suc, true, zero,
  ltb, ℕ, ◌<◌, ◌≡◌,
}

-- A message with the body and the next number whose exchange and key are bound to the retry queue
-- of the attempt; when its time there is over, the exchange and the key by which the broker passes
-- it on are bound to `q`.
abbrev IsReturned : Queue → ℕ → Value → Delivery → Type 0
IsReturned q attempt body d =
    (d.body ≡ body)
    × (d.attempt ≡ some (attempt + 1))
    × ((r : RetryQueue) × (get_elem? (create_retry_queues q payments_exchange 5 3) attempt ≡ some r)
        × (r.message_ttl ≡ 1000 * 5 * 2 ^ (attempt + 1))
        × IsBound d.exchange d.routing_key r.name
        × IsBound r.dead_letter_exchange (str r.dead_letter_routing_key) (str q.name))

-- What a failure below the maximal attempt has sent: such a message, or nothing, if the broker did
-- not answer one of the two calls.
abbrev pub ReturnsTo : Queue → ℕ → Value → World → Result (Unit {0}) × World → Type 0
ReturnsTo q attempt body w (ok _, w') =
    (d : Delivery) × (w'.sent ≡ w.sent ++ d ∷ []) × IsReturned q attempt body d
ReturnsTo q attempt body w (err e, w') =
    (e ≡ broker_error)
    × (w'.sent ≡ w.sent)
    × ((w.env.broker_publish w.tick ≡ false) ⊎ (w.env.broker_publish (w.tick + 1) ≡ false))

abbrev RetriesBy : List RetryQueue → Queue → ℕ → Value → Type 0
RetriesBy queues q attempt body =
    (r : RetryQueue) × (get_elem? queues attempt ≡ some r)
    × IsReturned q attempt body (retry_delivery r attempt body)

process_retries :
    (attempt : ℕ) (body : Value)
    → attempt < 3
    → RetriesBy process_retry_queues new_payments_q attempt body
unfolding create_app create_retry_queues
process_retries zero body h = (_, refl, (refl, refl, (_, refl, refl, (2, refl), (1, refl))))
process_retries (suc zero) body h = (_, refl, (refl, refl, (_, refl, refl, (3, refl), (1, refl))))
process_retries (suc (suc zero)) body h =
    (_, refl, (refl, refl, (_, refl, refl, (4, refl), (1, refl))))
process_retries (suc (suc (suc n))) body h = absurd (omega arith)

notify_retries :
    (attempt : ℕ) (body : Value)
    → attempt < 3
    → RetriesBy notify_retry_queues notify_payments_q attempt body
unfolding create_app create_retry_queues
notify_retries zero body h = (_, refl, (refl, refl, (_, refl, refl, (6, refl), (5, refl))))
notify_retries (suc zero) body h = (_, refl, (refl, refl, (_, refl, refl, (7, refl), (5, refl))))
notify_retries (suc (suc zero)) body h =
    (_, refl, (refl, refl, (_, refl, refl, (8, refl), (5, refl))))
notify_retries (suc (suc (suc n))) body h = absurd (omega arith)

-- A message handed over by the two calls of the broker, or the error of one of them.
abbrev HandedOver : Delivery → World → Result (Unit {0}) × World → Type 0
HandedOver d w (ok _, w') = w'.sent ≡ w.sent ++ d ∷ []
HandedOver d w (err e, w') =
    (e ≡ broker_error)
    × (w'.sent ≡ w.sent)
    × ((w.env.broker_publish w.tick ≡ false) ⊎ (w.env.broker_publish (w.tick + 1) ≡ false))

connect_and_publish : (d : Delivery) (w : World) → HandedOver d w ((connect >>= λ _. publish d) w)
unfolding connect publish
connect_and_publish d w = ground arith

handed_back :
    (q : Queue) (attempt : ℕ) (body : Value) (d : Delivery) (w : World)
    (x : Result (Unit {0}) × World)
    → IsReturned q attempt body d
    → HandedOver d w x
    → ReturnsTo q attempt body w x
handed_back q attempt body d w (ok _, w') back sent = (d, sent, back)
handed_back q attempt body d w (err e, w') back refused = refused

retry-ReturnsTo :
    (queues : List RetryQueue) (q : Queue) (attempt : ℕ) (body : Value) (w : World)
    → RetriesBy queues q attempt body
    → ReturnsTo q attempt body w ((connect >>= λ _. publish_retry queues attempt body) w)
unfolding publish_retry
retry-ReturnsTo queues q attempt body w (r, found, back) = rw found (
    handed_back q attempt body (retry_delivery r attempt body) w
      ((connect >>= λ _. publish (retry_delivery r attempt body)) w) back
      (connect_and_publish (retry_delivery r attempt body) w))

below : (attempt : ℕ) → attempt < 3 → ltb attempt 3 ≡ true
below attempt h = ground arith

-- Below the third attempt a message whose handling failed comes back to its consumer, of the
-- notifier whatever the error: one message is sent, with the same body and the next number, whose
-- exchange and key are bound to the retry queue of the attempt; it waits there for
-- 5 * 2 ** (attempt + 1) seconds, and the exchange and the key that the queue then passes it on by
-- are bound to the queue of the consumer. Only if the broker refuses one of its two calls, its error
-- is raised and nothing is sent.
pub errors-ReturnTo :
    (u : Uuid) (attempt : ℕ) (body : Value) (e : Error) (w : World)
    → attempt < 3
    → ReturnsTo new_payments_q attempt body w (on_process_error u attempt body w)
      × ReturnsTo notify_payments_q attempt body w (on_notify_error u attempt body e w)
unfolding on_process_error on_notify_error
errors-ReturnTo u attempt body e w h = rw (below attempt h) (
  retry-ReturnsTo process_retry_queues new_payments_q attempt body w
      (process_retries attempt body h),
  retry-ReturnsTo notify_retry_queues notify_payments_q attempt body w
      (notify_retries attempt body h),
)
