-- ===== src/Exec.antt =====
-- The world that the service runs in, and actions on it. An action returns or raises, and what it
-- has changed stays changed. `db` is the committed state of PostgreSQL and `tx` what the open
-- transaction of the session sees; `sent`, `posts` and `acks` record what has left the service.
-- `env` decides whatever comes from outside: identifiers, the clock, row locks of other
-- transactions, the outcome of a commit, a publication or a request. Each reading takes the next
-- `tick`, so two readings may differ.
use mco_louna_task.Base.{ℕ, ◌+◌, String, Bool, Option, List, [], ◌∷◌, ◌++◌}
use mco_louna_task.Values.{
  Uuid, Decimal, Datetime, Currency, PaymentStatus, TaskStatus, Text, Value, Fields,
}
use mco_louna_task.Errors.{Error, Result, ok, err}
use mco_louna_task.Domain.Webhook.{ParsedUrl}
use mco_louna_task.Serial.Rebuild.{Readers}

-- A row of the table `payments` (infrastructure/database/payments/table.py).
pub record PaymentRow : Type 0 where
  pub id : Uuid
  pub amount : Decimal
  pub currency : Currency
  pub description : String
  pub metadata : Fields
  pub status : PaymentStatus
  pub idempotency_key : Uuid
  pub created_at : Datetime
  pub processed_at : Option Datetime
  pub webhook_url : String

-- A row of the table `outbox` (infrastructure/database/outbox/table.py).
pub record OutboxRow : Type 0 where
  pub id : Uuid
  pub queue : String
  pub payload : Fields
  pub occurred_at : Datetime
  pub status : TaskStatus
  pub handled_at : Option Datetime

pub record Database : Type 0 where
  pub payments : List PaymentRow
  pub outbox : List OutboxRow

pub data CommitOutcome : Type 0 where
  committed timed_out operational failed : CommitOutcome

pub data CallOutcome : Type 0 where
  published circuit_open failed : CallOutcome

-- How `client.post` ends. `other_error` is an exception outside the classes of httpx that the sender
-- names: `InvalidURL`, or what encoding a payload as JSON raises.
pub data PostOutcome : Type 0 where
  response : ℕ → PostOutcome
  timed_out request_error other_error : PostOutcome

pub record Env : Type 0 where
  pub dev : Bool
  pub uuid4 : ℕ → Uuid
  pub clock : ℕ → ℕ
  pub locked : ℕ → Uuid → Bool
  pub commit : ℕ → CommitOutcome
  pub call : ℕ → CallOutcome
  pub broker_publish : ℕ → Bool
  pub success : ℕ → Bool
  pub breaker_open : ℕ → Bool
  pub post : ℕ → PostOutcome
  pub route : String → String → Text
  pub urlparse : String → ParsedUrl
  pub url_validate : String → Bool
  pub readers : Readers

-- A message that the broker took: `attempt` is the header `x-attempt`.
pub record Delivery : Type 0 where
  pub exchange : String
  pub routing_key : Text
  pub body : Value
  pub attempt : Option ℕ

pub record Post : Type 0 where
  pub url : String
  pub payload : Fields
  pub timeout : ℕ

pub record World : Type 0 where
  pub env : Env
  pub db : Database
  pub tx : Database
  pub tick : ℕ
  pub sent : List Delivery
  pub posts : List Post
  pub acks : ℕ

abbrev pub Action : Type 0 → Type 0
Action A = World → Result A × World

module _ {A : Type 0} where
  abbrev pub pure : A → Action A
  pure a w = (ok a, w)

  abbrev pub raise : Error → Action A
  raise e w = (err e, w)

  abbrev pub lift : Result A → Action A
  lift r w = (r, w)

  -- the next reading from outside
  abbrev pub draw : (Env → ℕ → A) → Action A
  draw f w = (ok (f w.env w.tick), record w { tick = w.tick + 1 })

  abbrev pub ask : (Env → A) → Action A
  ask f w = (ok (f w.env), w)

  -- a statement of the session that reads
  abbrev pub query : (Database → A) → Action A
  query f w = (ok (f w.tx), w)

abbrev pub record_post : Post → Action (Unit {0})
record_post p w = (ok tt, record w { posts = w.posts ++ p ∷ [] })

-- `await msg.ack()`
abbrev pub ack : Action (Unit {0})
ack w = (ok tt, record w { acks = w.acks + 1 })

-- a statement of the session that writes
abbrev pub execute : (Database → Database) → Action (Unit {0})
execute f w = (ok tt, record w { tx = f w.tx })

infixl 5 ◌>>=◌ ◌>>◌
abbrev pub ◌>>=◌ : {A B : Type 0} → Action A → (A → Action B) → Action B
◌>>=◌ m f w = let (r, w') = m w in elim r [ ok a ↦ f a w' | err e ↦ (err e, w') ]

abbrev pub ◌>>◌ : {A B : Type 0} → Action A → Action B → Action B
m >> k = m >>= λ _. k

abbrev pub raise_when : Bool → Error → Action (Unit {0})
raise_when c e w = (mco_louna_task.Errors.raise_if c e, w)

abbrev pub send : Delivery → Action (Unit {0})
send d w = (ok tt, record w { sent = w.sent ++ d ∷ [] })

-- the clause `except e ...`, tried on what `body` raised
abbrev pub catch : {A : Type 0} → Action A → (Error → Action A) → Action A
catch m handler w = let (r, w') = m w in elim r [ ok a ↦ (ok a, w') | err e ↦ handler e w' ]
