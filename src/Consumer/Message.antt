-- ===== src/Consumer/Message.antt =====
-- What the two handlers share: the message, the claim, the retry queues, and how a failure is
-- passed on. `routing` is the key that the library takes from a `queue=` argument.
use mco_louna_task.Values.{TaskStatus, Uuid, Value}
use mco_louna_task.Storage.Uow.{commit, with_uow}
use mco_louna_task.Storage.Outbox.{mark_in_process, mark_processed}
use mco_louna_task.Exec.{Action, Delivery, draw, lift, raise_when, send, ◌>>=◌, ◌>>◌}
use mco_louna_task.Errors.{Result, broker_error, err, index_error, ok}
use mco_louna_task.Broker.Routes.{payments_dlx}
use mco_louna_task.Broker.Retry.{RetryQueue}
use mco_louna_task.Base.{Bool, List, Option, get_elem?, ltb, none, not, some, ℕ, ◌&&◌, ◌+◌, ◌||◌}

-- A delivered message: its body as decoded JSON, and the header `x-attempt`.
pub record Message : Type 0 where
  pub body : Value
  pub attempt : Option ℕ

abbrev pub max_attempts : ℕ
max_attempts = 3

abbrev pub delay_base : ℕ
delay_base = 5

-- `headers.get("x-attempt", 0)`
abbrev pub attempt_of : Message → ℕ
attempt_of m = elim m.attempt [ none ↦ 0 | some n ↦ n ]

-- `claimed or attempt > 0 and attempt < MAX_ATTEMPTS`
abbrev pub should_run : Bool → ℕ → Bool
should_run claimed attempt = claimed || (ltb 0 attempt && ltb attempt max_attempts)

-- `broker.connect()`, which may raise
unfoldable pub connect : Action (Unit {0})
connect = do up ← draw (λ e. e.broker_publish); raise_when (not up) broker_error

-- `broker.publish(...)`, which may raise
unfoldable pub publish : Delivery → Action (Unit {0})
publish d = do up ← draw (λ e. e.broker_publish); raise_when (not up) broker_error; send d

-- `retry_routing_queues[attempt]`
abbrev pub or_index_error : Option RetryQueue → Result RetryQueue
or_index_error none = err index_error
or_index_error (some q) = ok q

abbrev pub retry_delivery : RetryQueue → ℕ → Value → Delivery
retry_delivery q attempt body = record {
  exchange = payments_dlx.name;
  routing_key = q.routing_key;
  body = body;
  attempt = some (attempt + 1);
}

-- the branch `attempt < MAX_ATTEMPTS` of a failure
unfoldable pub publish_retry : List RetryQueue → ℕ → Value → Action (Unit {0})
publish_retry queues attempt body = do
  q ← lift (or_index_error (get_elem? queues attempt))
  publish (retry_delivery q attempt body)

-- `async with uow: mark_processed(...); commit()`
unfoldable pub settle_task : Uuid → TaskStatus → Action (Unit {0})
settle_task event_id upd_status = with_uow (mark_processed event_id upd_status >> commit)

-- `async with uow: claimed = await uow.outbox.mark_in_process(event.id)`
unfoldable pub claim_event : Uuid → Action Bool
claim_event event_id = with_uow (mark_in_process event_id)
