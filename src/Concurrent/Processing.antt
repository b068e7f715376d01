-- ===== src/Concurrent/Processing.antt =====
-- The transaction of `ProcessPayment` for any number of deliveries at once, while requests create
-- payments and consumers settle events. `get_by_id` locks the row that it reads until the end of
-- the transaction and skips rows that others have locked (FOR UPDATE SKIP LOCKED).
use mco_louna_task.Values.{cat, str, uuid_text, PaymentStatus, TaskStatus, Uuid}
use mco_louna_task.UseCase.Process.Plan.{settled_db}
use mco_louna_task.Storage.Payments.{has_id, insert_payment, violates, visible}
use mco_louna_task.Storage.Outbox.{insert_rows, set_status, update_events}
use mco_louna_task.Exec.{Database, OutboxRow, PaymentRow, World}
use mco_louna_task.Base.{
  Bool, Option, [], false, find, if◌then◌else◌, none, some, true, ℕ, ◌==◌, ◌∷◌, ◌≡◌, ◌≢◌,
}
use mco_louna_task.Errors.{Error, business_rule, raise_domain, simple_error, not_found}

-- Where a delivery stands: before `get_by_id`, with the row that it has read and locked, with the
-- UPDATE and the event executed, after the commit, or raising.
pub data Stage : Type 0 where
  reading : Stage
  holding updating settled : PaymentRow → Stage
  stopped : Error → Stage

pub record Deliveries : Type 0 where
  pub db : Database
  pub stage : ℕ → Stage

abbrev pub set_stage : ℕ → Stage → (ℕ → Stage) → ℕ → Stage
set_stage i p stage j = if j == i then p else stage j

abbrev pub moves : ℕ → Stage → Deliveries → Deliveries
moves i p s = record s { stage = set_stage i p s.stage }

-- the row that the delivery has locked
abbrev pub locked_row : Stage → Option PaymentRow
locked_row (holding row) = some row
locked_row (updating row) = some row
locked_row _ = none

-- the error of a `get_by_id` that reads no row
abbrev pub missing_payment : Uuid → Error
missing_payment u = raise_domain not_found (cat (str "Payment not found: ") (uuid_text u)) none

abbrev pub is_running : Stage → Bool
is_running (settled _) = false
is_running (stopped _) = false
is_running _ = true

-- the commit of a delivery that meets the readings of `w`
abbrev pub settle_commit : World → PaymentRow → ℕ → Deliveries → Deliveries
settle_commit w row i s = record {
  db = settled_db row w s.db;
  stage = set_stage i (settled row) s.stage;
}

-- `locked` has the rows that the deliveries hold; other transactions may hold more.
abbrev pub Covers : (Uuid → Bool) → Deliveries → Type 0
Covers locked s =
    (j : ℕ) (row : PaymentRow) → locked_row (s.stage j) ≡ some row → locked row.id ≡ true

-- One statement. Delivery `i` is for the payment `target i`, and after its row it takes the
-- readings of the world `x i`.
pub data Statement (x : ℕ → World) (target : ℕ → Uuid) (s t : Deliveries) : Type 0 where
  read_missed :
      (i : ℕ) (locked : Uuid → Bool)
      → s.stage i ≡ reading
      → Covers locked s
      → find (visible locked (has_id (target i))) s.db.payments ≡ none
      → t ≡ moves i (stopped (missing_payment (target i))) s
      → Statement x target s t
  read_found :
      (i : ℕ) (locked : Uuid → Bool) (row : PaymentRow)
      → s.stage i ≡ reading
      → Covers locked s
      → find (visible locked (has_id (target i))) s.db.payments ≡ some row
      → t ≡ moves i (holding row) s
      → Statement x target s t
  refused :
      (i : ℕ) (row : PaymentRow)
      → s.stage i ≡ holding row
      → row.status ≢ PaymentStatus.pending
      → t ≡ moves i (stopped (simple_error business_rule "Already processed")) s
      → Statement x target s t
  updated :
      (i : ℕ) (row : PaymentRow)
      → s.stage i ≡ holding row
      → row.status ≡ PaymentStatus.pending
      → t ≡ moves i (updating row) s
      → Statement x target s t
  commit_settled :
      (i : ℕ) (row : PaymentRow)
      → s.stage i ≡ updating row
      → t ≡ settle_commit (x i) row i s
      → Statement x target s t
  raised :
      (i : ℕ) (e : Error)
      → is_running (s.stage i) ≡ true
      → t ≡ moves i (stopped e) s
      → Statement x target s t
  payment_created :
      (p : PaymentRow) (e : OutboxRow)
      → violates p s.db ≡ false
      → t ≡ record s { db = insert_rows (e ∷ []) (insert_payment p s.db) }
      → Statement x target s t
  task_settled :
      (u : Uuid) (status : TaskStatus)
      → t ≡ record s { db = update_events u (set_status status) s.db }
      → Statement x target s t

pub data Run (x : ℕ → World) (target : ℕ → Uuid) (s : Deliveries) : Deliveries → Type 0 where
  begun : Run x target s s
  next : {t u : Deliveries} → Run x target s t → Statement x target t u → Run x target s u

-- all deliveries at their start
abbrev pub delivered : Database → Deliveries
delivered d = record { db = d; stage = λ _. reading }
