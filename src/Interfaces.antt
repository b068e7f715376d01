-- ===== src/Interfaces.antt =====
-- The interfaces that the use cases get: the outbox, the unit of work, the event bus and the sender
-- of webhooks (src/payments/application/interfaces). `PaymentRepository` is in Domain/Repository.
use mco_louna_task.Values.{Fields, TaskStatus, Uuid}
use mco_louna_task.Exec.{Action, World}
use mco_louna_task.Errors.{Result, err, ok}
use mco_louna_task.Base.{Bool, List, String, false, true, ℕ}
use mco_louna_task.Domain.Event.{Event}
use mco_louna_task.Domain.Repository.{PaymentRepository}

pub record PaymentEventRepository : Type 0 where
  pub get_pendings : (limit offset : ℕ) → Action (List Event)
  pub add : List Event → Action (Unit {0})
  pub mark_processed : (event_id : Uuid) → (upd_status : TaskStatus) → Action (Unit {0})
  pub mark_in_process : (event_id : Uuid) → Action Bool

-- `enter` is `__aenter__`, and `leave` is `__aexit__`, which is told whether the body has raised and
-- lets the exception pass.
pub record PaymentUow : Type 0 where
  pub payments : PaymentRepository
  pub outbox : PaymentEventRepository
  pub enter : World → World
  pub leave : Bool → World → World
  pub commit : Action (Unit {0})
  pub rollback : World → World

pub record PaymentEventBus : Type 0 where
  pub publish_payment_events : List Event → Action (Unit {0})

pub record WebhookSender : Type 0 where
  pub send : (url : String) → (payload : Fields) → (timeout : ℕ) → Action (Unit {0})

abbrev pub is_raised : {A : Type 0} → Result A → Bool
is_raised (ok _) = false
is_raised (err _) = true

-- `async with uow`
abbrev pub within : {A : Type 0} → PaymentUow → Action A → Action A
within uow body w = let (r, w') = body (uow.enter w) in (r, uow.leave (is_raised r) w')
