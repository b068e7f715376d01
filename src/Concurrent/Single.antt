-- ===== src/Concurrent/Single.antt =====
-- One call of `ProcessPayment` as a run of its statements.
use mco_louna_task.Values.{PaymentStatus, Uuid, uuid}
use mco_louna_task.UseCase.Process.Plan.{settled_db}
use mco_louna_task.UseCase.Process.Outcome.{after_read, process_payment-Outcome}
use mco_louna_task.UseCase.Process.{process_payment}
use mco_louna_task.Storage.Payments.{has_id, visible}
use mco_louna_task.Exec.{Database, PaymentRow, World}
use mco_louna_task.Errors.{Error, Result, err, ok}
use mco_louna_task.Domain.Event.{Event}
use mco_louna_task.Base.{arith, find, inl, inr, refl, some, sym, ◌≡◌, ◌⊎◌}
use mco_louna_task.Concurrent.Processing.{
  Deliveries, Run, delivered, settled, reading, updated, begun, next, read_found, commit_settled,
}
use mco_louna_task.UseCase.Process.Outcome as ProcessOutcome

-- What a call has done, as a run of one delivery that takes the readings of `w`.
abbrev pub IsRun : Uuid → World → Result (Unit {0}) × World → Type 0
IsRun u w (r, w') =
    (t : Deliveries) × Run (λ _. after_read w) (λ _. u) (delivered w.db) t
    × (t.db ≡ w'.db)
    × (((row : PaymentRow) × (t.stage 0 ≡ settled row))
        ⊎ ((e : Error) × (r ≡ err e) × (t.stage 0 ≡ reading)))

settled-Run :
    (u : Uuid) (w : World) (row : PaymentRow) (d : Database)
    → find (visible (w.env.locked w.tick) (has_id u)) w.db.payments ≡ some row
    → row.status ≡ PaymentStatus.pending
    → d ≡ settled_db row (after_read w) w.db
    → (t : Deliveries) × Run (λ _. after_read w) (λ _. u) (delivered w.db) t
      × (t.db ≡ d)
      × (t.stage 0 ≡ settled row)
settled-Run u w row d found fresh made = (
  _,
  next
      (next
        (next begun
          (read_found 0 (w.env.locked w.tick) row refl (λ j r e. ground arith) found refl))
        (updated 0 row refl fresh refl))
      (commit_settled 0 row refl refl),
  sym made,
  refl,
)

of_Outcome :
    (u : Uuid) (w : World) (x : Result (Unit {0}) × World)
    → ProcessOutcome.Outcome u w x
    → IsRun u w x
of_Outcome u w (ok _, w') (row, found, fresh, made, _) =
    let (t, r, same, at) = settled-Run u w row w'.db found fresh made in (t, r, same, inl (row, at))
of_Outcome u w (err e, w') (_, inl (_, same)) = (_, begun, sym same, inr (e, refl, refl))
of_Outcome u w (err e, w') (_, inr (row, _, found, fresh, made)) =
    let (t, r, same, at) = settled-Run u w row w'.db found fresh made in (t, r, same, inl (row, at))

-- A call of `process_payment` alone, for an event that carries a UUID, is a run of the statements of
-- one delivery with its readings: it leaves the committed database of that run, and the delivery is
-- settled in it, or the call raises and the delivery has not read.
pub process_payment-Run :
    (u : Uuid) (event : Event) (w : World)
    → event.payment_id ≡ uuid u
    → IsRun u w (process_payment event w)
process_payment-Run u event w e =
    of_Outcome u w (process_payment event w) (process_payment-Outcome u event w e)
