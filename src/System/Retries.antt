-- ===== src/System/Retries.antt =====
-- How often a message that keeps failing is handled: the retries of one message, from one delivery
-- to the next.
use mco_louna_task.System.Consumers.{Consumer, consume, consume-Emits}
use mco_louna_task.Base.{List}
use mco_louna_task.Values.{Text, Value, str}
use mco_louna_task.System.Emits.{IsSendOf}
use mco_louna_task.Exec.{Delivery, World}
use mco_louna_task.Consumer.Message.{Message, attempt_of, max_attempts}
use mco_louna_task.Broker.Routes.{dlq}
use mco_louna_task.Base.{
  All-get_elem?, ap, append_cancel, arith, get_elem?, inl, inr, none, some, subst, suc, sym, zero,
  ℕ, ◌++◌, ◌+◌, ◌<◌, ◌∙◌, ◌≡◌, ◌≢◌, ◌≤◌,
}

-- While it handled `msg` in some world the consumer sent `next` to one of its retry queues: a message
-- with an attempt in its header and a key other than that of the dead-letter queue.
pub record IsRetriedAs (to_str : Value → Text) (c : Consumer) (msg next : Message) : Type 0 where
  pub world : World
  pub new : List Delivery
  pub sent : (consume to_str c msg world).1.sent ≡ world.sent ++ new
  pub place : ℕ
  pub delivery : Delivery
  pub found : get_elem? new place ≡ some delivery
  pub key : delivery.routing_key ≢ str dlq.routing_key
  pub header : delivery.attempt ≢ none
  pub same : next ≡ record { body = delivery.body; attempt = delivery.attempt }

-- A chain of retries: each message is handled, and its retry is the next.
pub data Retries (to_str : Value → Text) (c : Consumer) (msg : Message) : ℕ → Message → Type 0 where
  first : Retries to_str c msg 0 msg
  again :
      {n : ℕ} {last next : Message}
      → Retries to_str c msg n last
      → IsRetriedAs to_str c last next
      → Retries to_str c msg (suc n) next

-- A retry was sent below the maximal attempt, and counts one attempt more.
abbrev Counts : Message → Message → Type 0
Counts msg next =
    (attempt_of msg < max_attempts)
    × (next.attempt ≡ some (attempt_of msg + 1))
    × (next.body ≡ msg.body)

Counts-of_send :
    (msg : Message) (d : Delivery)
    → IsSendOf msg d
    → d.routing_key ≢ str dlq.routing_key
    → d.attempt ≢ none
    → Counts msg (record { body = d.body; attempt = d.attempt })
Counts-of_send msg d (inl e) key header = absurd (header e)
Counts-of_send msg d (inr (inl e)) key header = absurd (key e)
Counts-of_send msg d (inr (inr h)) key header = h

retried-Counts :
    (to_str : Value → Text) (c : Consumer) (msg next : Message)
    → IsRetriedAs to_str c msg next
    → Counts msg next
retried-Counts to_str c msg next r =
    let (new, sent, sends) = consume-Emits to_str c msg r.world in
    let e : new ≡ r.new = append_cancel r.world.sent (sym sent ∙ r.sent) in
    subst (Counts msg) (sym r.same) (
      Counts-of_send msg r.delivery
        (All-get_elem? (IsSendOf msg) new r.place r.delivery sends
          (ap (λ (ds : List Delivery). get_elem? ds r.place) e ∙ r.found))
        r.key r.header)

chain_counts :
    (to_str : Value → Text) (c : Consumer) (msg last : Message) (n : ℕ)
    → msg.attempt ≡ none
    → Retries to_str c msg n last
    → (n ≤ max_attempts) × (attempt_of last ≡ n) × (last.body ≡ msg.body)
chain_counts to_str c msg last zero fresh first = ground arith
chain_counts to_str c msg last (suc n) fresh (again {last = mid} k r) =
    ground (arith, chain_counts to_str c msg mid n fresh k, retried-Counts to_str c mid last r)

-- The retries of a message end: whatever the worlds in which it is handled, a fresh message of
-- either consumer is sent again at most three times, so it is handled at most four times. Each time
-- it has the same body, and its header counts the retries.
pub Retries-bound :
    (to_str : Value → Text) (c : Consumer) (msg last : Message) (n : ℕ)
    → msg.attempt ≡ none
    → Retries to_str c msg n last
    → (n ≤ 3) × (attempt_of last ≡ n) × (last.body ≡ msg.body)
Retries-bound = chain_counts
