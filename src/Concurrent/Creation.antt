-- ===== src/Concurrent/Creation.antt =====
-- `PaymentService.create`, `SqlAlchemyPaymentRepository.add` and the commit of
-- `CreatePaymentUseCase`, for any number of requests at once. A statement sees what is committed and
-- not what other transactions have open (READ COMMITTED); an INSERT with a key of the open
-- transaction of another request waits, so it takes no step.
use mco_louna_task.Values.{Text, Uuid}
use mco_louna_task.Storage.Payments.{has_key, insert_payment, violates, visible}
use mco_louna_task.Storage.Outbox.{insert_rows}
use mco_louna_task.Exec.{Database, OutboxRow, PaymentRow}
use mco_louna_task.Errors.{Error, exists, integrity_error, raise_domain, simple_error}
use mco_louna_task.Base.{
  Bool, [], any, false, find, if◌then◌else◌, none, some, true, ℕ, ◌==◌, ◌||◌, ◌∷◌, ◌≡◌,
}

-- What a request inserts: its payment and its event.
pub record Insertion : Type 0 where
  pub payment : PaymentRow
  pub event : OutboxRow

-- Where a request stands: before `get_by_key`, before the SELECT of `add`, before its INSERT, before
-- the commit, after it, or raising.
pub data Pc : Type 0 where
  looking checking inserting committing done : Pc
  failed : Error → Pc

pub record Requests : Type 0 where
  pub db : Database
  pub pc : ℕ → Pc

abbrev pub set_pc : ℕ → Pc → (ℕ → Pc) → ℕ → Pc
set_pc i p pc j = if j == i then p else pc j

abbrev pub goes : ℕ → Pc → Requests → Requests
goes i p s = record s { pc = set_pc i p s.pc }

abbrev pub same_keys : Insertion → Insertion → Bool
same_keys x y =
    x.payment.idempotency_key == y.payment.idempotency_key || x.payment.id == y.payment.id

-- the rows of the transaction that `commit` makes visible
abbrev pub committed_rows : Insertion → Database → Database
committed_rows x d = insert_rows (x.event ∷ []) (insert_payment x.payment d)

abbrev pub known_key : Insertion → Database → Bool
known_key x d = any (has_key x.payment.idempotency_key) d.payments

-- the commit of request `i`
abbrev pub make_commit : Insertion → ℕ → Requests → Requests
make_commit x i s = record { db = committed_rows x s.db; pc = set_pc i done s.pc }

-- the transaction of the request is open
abbrev pub is_open : Pc → Bool
is_open done = false
is_open (failed _) = false
is_open _ = true

-- One statement of request `i`, which inserts `x i`. `locked` are the rows that other transactions
-- hold when it reads. A request may also raise for another reason, also in its commit, which then
-- has committed nothing.
pub data Step (x : ℕ → Insertion) (s t : Requests) : Type 0 where
  lookup_found :
      (i : ℕ) (locked : Uuid → Bool) (row : PaymentRow)
      → s.pc i ≡ looking
      → find (visible locked (has_key (x i).payment.idempotency_key)) s.db.payments ≡ some row
      → t ≡ goes i (failed (simple_error exists "Payment already exists")) s
      → Step x s t
  lookup_missed :
      (i : ℕ) (locked : Uuid → Bool)
      → s.pc i ≡ looking
      → find (visible locked (has_key (x i).payment.idempotency_key)) s.db.payments ≡ none
      → t ≡ goes i checking s
      → Step x s t
  check_found :
      (i : ℕ) (message : Text)
      → s.pc i ≡ checking
      → known_key (x i) s.db ≡ true
      → t ≡ goes i (failed (raise_domain exists message none)) s
      → Step x s t
  check_passed :
      (i : ℕ)
      → s.pc i ≡ checking
      → known_key (x i) s.db ≡ false
      → t ≡ goes i inserting s
      → Step x s t
  insert_refused :
      (i : ℕ)
      → s.pc i ≡ inserting
      → violates (x i).payment s.db ≡ true
      → t ≡ goes i (failed integrity_error) s
      → Step x s t
  insert_taken :
      (i : ℕ)
      → s.pc i ≡ inserting
      → violates (x i).payment s.db ≡ false
      → ((j : ℕ) → s.pc j ≡ committing → same_keys (x i) (x j) ≡ false)
      → t ≡ goes i committing s
      → Step x s t
  commit_made : (i : ℕ) → s.pc i ≡ committing → t ≡ make_commit (x i) i s → Step x s t
  raised : (i : ℕ) (e : Error) → is_open (s.pc i) ≡ true → t ≡ goes i (failed e) s → Step x s t

pub data Reach (x : ℕ → Insertion) (s : Requests) : Requests → Type 0 where
  start : Reach x s s
  later : {t u : Requests} → Reach x s t → Step x t u → Reach x s u

-- all requests at their start
abbrev pub arriving : Database → Requests
arriving d = record { db = d; pc = λ _. looking }
