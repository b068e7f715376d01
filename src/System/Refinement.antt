-- ===== src/System/Refinement.antt =====
-- Every operation of the service is a sequence of the specified changes.
use mco_louna_task.Values.{Text, none_value, text, Uuid, PaymentStatus, TaskStatus, uuid}
use mco_louna_task.UseCase.Process.Plan.{
  chosen_reason, chosen_status, settled_db, settled_event_row,
}
use mco_louna_task.UseCase.Process.Outcome.{after_read, process_payment-Outcome, target}
use mco_louna_task.UseCase.Process.{process_payment}
use mco_louna_task.Storage.Uow.{begin, commit}
use mco_louna_task.Domain.Timestamp.{utc}
use mco_louna_task.Domain.Event.{Event}
use mco_louna_task.Consumer.Message.{claim_event, settle_task}
use mco_louna_task.UseCase.Create.Plan.{event_row, planned_event, planned_payment}
use mco_louna_task.UseCase.Create.Outcome.{Creates, create_payment-Outcome}
use mco_louna_task.UseCase.Create.{CreatePaymentCommand, CreatePaymentResponse, create_payment}
use mco_louna_task.System.Change.{
  record_payment, settle_event, settle_payment, Changes, Changes-of_eq, Changes-one,
}
use mco_louna_task.Storage.Payments.{has_id, visible, row_of}
use mco_louna_task.Storage.Outbox.{
  has_event_id, mark_in_process, mark_processed, set_status, unlocked, update_events, insert_all,
}
use mco_louna_task.Exec.{OutboxRow, PaymentRow, Database, World}
use mco_louna_task.Errors.{Result, err, ok}
use mco_louna_task.Base.{
  subst, sym, test_of_find, ◌∙◌, List, Bool, [], any, arith, false, find, some, true, ◌+◌, ◌∷◌, ◌≡◌,
  ◌≢◌, ◌⊎◌, inl, inr, refl,
}
use mco_louna_task.UseCase.Process.Outcome as ProcessOutcome
use mco_louna_task.UseCase.Create.Outcome as CreateOutcome

of_Creates : (c : CreatePaymentCommand) (w : World) (d : Database) → Creates c w d → Changes w.db d
unfolding insert_all
of_Creates c w d (free, made) = Changes-one (
    record_payment (row_of (planned_payment c w))
      (event_row (planned_event c w) (planned_payment c w)) refl refl free.0 (refl, refl, refl)
      made)

of_created :
    (c : CreatePaymentCommand) (w : World) (x : Result CreatePaymentResponse × World)
    → CreateOutcome.Outcome c w x
    → Changes w.db x.1.db
of_created c w (ok reply, w') (_, creates, _) = of_Creates c w w'.db creates
of_created c w (err x, w') (_, inl (_, creates)) = of_Creates c w w'.db creates
of_created c w (err x, w') (_, inr (_, same)) = Changes-of_eq same

-- One HTTP request to create a payment changes the committed database as specified.
pub create_payment-Changes :
    (c : CreatePaymentCommand) (w : World) → Changes w.db (create_payment c w).1.db
create_payment-Changes c w = of_created c w (create_payment c w) (create_payment-Outcome c w)

-- A row that is read under a lock test is the first of its identifier.
pub id_of_visible :
    (locked : Uuid → Bool) (u : Uuid) (rows : List PaymentRow) (row : PaymentRow)
    → find (visible locked (has_id u)) rows ≡ some row
    → row.id ≡ u
id_of_visible locked u rows row h =
    ground (arith, test_of_find (visible locked (has_id u)) rows row h)

pub lock_of_visible :
    (locked : Uuid → Bool) (u : Uuid) (rows : List PaymentRow) (row : PaymentRow)
    → find (visible locked (has_id u)) rows ≡ some row
    → locked u ≡ false
lock_of_visible locked u rows row h =
    ground (arith, test_of_find (visible locked (has_id u)) rows row h)

pub find-visible :
    (locked : Uuid → Bool) (u : Uuid) (rows : List PaymentRow)
    → locked u ≡ false
    → find (visible locked (has_id u)) rows ≡ find (has_id u) rows
find-visible locked u [] free = refl
find-visible locked u (r ∷ rows) free = ground (arith, find-visible locked u rows free)

pub not_pending : (b : Bool) → chosen_status b ≢ PaymentStatus.pending
not_pending true e = cc
not_pending false e = cc

reason_cases :
    (b : Bool) → (chosen_reason b ≡ none_value) ⊎ ((t : Text) × (chosen_reason b ≡ text t))
reason_cases true = inl refl
reason_cases false = inr (_, refl)

of_settled :
    (u : Uuid) (w : World) (row : PaymentRow) (d : Database)
    → target u (begin w) ≡ some row
    → row.status ≡ PaymentStatus.pending
    → d ≡ settled_db row (after_read w) w.db
    → Changes w.db d
unfolding insert_all
of_settled u w row d found fresh made = Changes-one (
    settle_payment row.id row (chosen_status (w.env.success (w.tick + 1)))
      (utc (w.env.clock (w.tick + 1 + 1))) (settled_event_row row (after_read w))
      (subst (λ x. find (has_id x) w.db.payments ≡ some row)
        (sym (id_of_visible locked u w.db.payments row found))
        (sym
            (find-visible locked u w.db.payments (lock_of_visible locked u w.db.payments row found))
          ∙ found))
      fresh (not_pending (w.env.success (w.tick + 1)))
      (refl, refl, _, reason_cases (w.env.success (w.tick + 1)), refl) made)
  where
    locked : Uuid → Bool
    locked = w.env.locked w.tick

of_processed :
    (u : Uuid) (w : World) (x : Result (Unit {0}) × World)
    → ProcessOutcome.Outcome u w x
    → Changes w.db x.1.db
of_processed u w (ok _, w') (row, found, fresh, made, _) = of_settled u w row w'.db found fresh made
of_processed u w (err x, w') (_, inl (_, same)) = Changes-of_eq same
of_processed u w (err x, w') (_, inr (row, _, found, fresh, made)) =
    of_settled u w row w'.db found fresh made

-- One call of `process_payment` on an event that carries a UUID changes the committed database as
-- specified.
pub process_payment-Changes :
    (u : Uuid) (event : Event) (w : World)
    → event.payment_id ≡ uuid u
    → Changes w.db (process_payment event w).1.db
process_payment-Changes u event w e =
    of_processed u w (process_payment event w) (process_payment-Outcome u event w e)

-- A claim commits nothing: the session is closed before any commit.
pub claim_event-db : (u : Uuid) (w : World) → (claim_event u w).1.db ≡ w.db
unfolding claim_event mark_in_process
claim_event-db u w = ground arith

unlocked-any :
    (locked : Uuid → Bool) (u : Uuid) (rows : List OutboxRow)
    → any (unlocked locked (has_event_id u)) rows ≡ true
    → any (has_event_id u) rows ≡ true
unlocked-any locked u [] h = h
unlocked-any locked u (r ∷ rows) h = ground (arith, unlocked-any locked u rows)

-- Settling a task in its own transaction sets the status of that event, or changes nothing.
settle_task_cases :
    (u : Uuid) (s : TaskStatus) (w : World)
    → ((settle_task u s w).1.db ≡ w.db)
      ⊎ ((any (has_event_id u) w.db.outbox ≡ true)
          × ((settle_task u s w).1.db ≡ update_events u (set_status s) w.db))
unfolding settle_task mark_processed commit
settle_task_cases u s w = ground (arith, unlocked-any (w.env.locked w.tick) u w.db.outbox)

pub settle_task-Changes :
    (u : Uuid) (s : TaskStatus) (w : World)
    → (s ≡ TaskStatus.confirmed) ⊎ (s ≡ TaskStatus.failed)
    → Changes w.db (settle_task u s w).1.db
settle_task-Changes u s w final = elim (settle_task_cases u s w) [
  | inl same ↦ Changes-of_eq same
  | inr (known, made) ↦ Changes-one (settle_event u s known final made)
]
