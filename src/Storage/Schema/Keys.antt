-- ===== src/Storage/Schema/Keys.antt =====
-- The tests by which the repositories' statements meet the constraints of the tables, against the
-- constraints that the migration creates.
use mco_louna_task.Values.{Uuid}
use mco_louna_task.Storage.Schema.Migration.{created_outbox, created_payments}
use mco_louna_task.Storage.Schema.{Table, UniqueConstraint}
use mco_louna_task.Storage.Payments.{has_id, has_key, violates}
use mco_louna_task.Storage.Outbox.{insert_event, has_event_id}
use mco_louna_task.Exec.{Database, OutboxRow, PaymentRow}
use mco_louna_task.Base.{
  ◌++◌, arith, Bool, List, Option, String, [], all, any, false, if◌then◌else◌, none, refl, some,
  str_eq, ◌==◌, ◌∷◌, ◌≡◌,
}

-- the columns of each key of a table: the primary key and the unique constraints
abbrev columns_of_uniques : List UniqueConstraint → List (List String)
columns_of_uniques [] = []
columns_of_uniques (c ∷ cs) = c.columns ∷ columns_of_uniques cs

abbrev pub keys_of : Table → List (List String)
keys_of t = t.primary_key ∷ columns_of_uniques t.uniques

-- the UUID in a column, if it has one
abbrev pub payment_cell : PaymentRow → String → Option Uuid
payment_cell row name =
    if str_eq name "id"
    then some row.id
    else if str_eq name "idempotency_key"
    then some row.idempotency_key
    else none

abbrev pub outbox_cell : OutboxRow → String → Option Uuid
outbox_cell row name = if str_eq name "id" then some row.id else none

abbrev same_cell : Option Uuid → Option Uuid → Bool
same_cell (some u) (some v) = u == v
same_cell _ _ = false

-- A row conflicts with the rows of the table if one of them agrees with it on all columns of a key.
abbrev pub agree : {A : Type 0} → (A → String → Option Uuid) → List String → A → A → Bool
agree cell columns new old = all (λ c. same_cell (cell old c) (cell new c)) columns

abbrev pub conflicts : {A : Type 0} → (A → String → Option Uuid) → Table → A → List A → Bool
conflicts cell t new rows = any (λ key. any (agree cell key new) rows) (keys_of t)

any-same : {A : Type 0} (p q : A → Bool) (xs : List A) → ((x : A) → p x ≡ q x) → any p xs ≡ any q xs
any-same p q [] h = refl
any-same p q (x ∷ xs) h = rw (h x, any-same p q xs h) refl

event_conflicts :
    (e : OutboxRow) (rows : List OutboxRow)
    → conflicts outbox_cell created_outbox e rows ≡ any (has_event_id e.id) rows
unfolding created_outbox
event_conflicts e rows =
    ground (
      arith,
      any-same (agree outbox_cell ("id" ∷ []) e) (has_event_id e.id) rows (λ r. ground arith),
    )

insert_event-conflicts :
    (e : OutboxRow) (rows : List OutboxRow)
    → insert_event e rows
      ≡ (if conflicts outbox_cell created_outbox e rows then rows else rows ++ e ∷ [])
unfolding insert_event
insert_event-conflicts e rows = rw (event_conflicts e rows) refl

-- The tests by which the INSERT of a payment is refused and that of an event does nothing are the
-- keys of the tables that the migration creates: some row agrees with the new one on the primary
-- key or on the columns of a unique constraint. Without such a row the event is appended to the
-- outbox.
pub conflicts-violates :
    (p : PaymentRow) (e : OutboxRow) (d : Database)
    → (conflicts payment_cell created_payments p d.payments ≡ violates p d)
      × (conflicts outbox_cell created_outbox e d.outbox ≡ any (has_event_id e.id) d.outbox)
      × (insert_event e d.outbox ≡ (
          if conflicts outbox_cell created_outbox e d.outbox then d.outbox else d.outbox ++ e ∷ []))
unfolding created_payments
conflicts-violates p e d = (
  ground (
    arith,
    any-same (agree payment_cell ("id" ∷ []) p) (has_id p.id) d.payments (λ r. ground arith),
    any-same (agree payment_cell ("idempotency_key" ∷ []) p) (has_key p.idempotency_key) d.payments
        (λ r. ground arith),
  ),
  event_conflicts e d.outbox,
  insert_event-conflicts e d.outbox,
)
