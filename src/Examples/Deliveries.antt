-- ===== src/Examples/Deliveries.antt =====
-- The theorems on deliveries that are processed at the same time, at concrete ones.
use mco_louna_task.Storage.Outbox.{has_event_id}
use mco_louna_task.Values.{Uuid}
use mco_louna_task.UseCase.Process.Plan.{settled_event_row, settle}
use mco_louna_task.UseCase.Process.{process_payment}
use mco_louna_task.Storage.Payments.{has_id}
use mco_louna_task.Exec.{World, pure}
use mco_louna_task.Examples.{
  pending_db, pending_world, sample_event, sample_message, sample_row, sample_uuid,
}
use mco_louna_task.Errors.{Error}
use mco_louna_task.Consumer.Process.{on_error, on_process_error}
use mco_louna_task.Concurrent.Single.{IsRun, process_payment-Run}
use mco_louna_task.Concurrent.Once.{Run-settles_once, deliveries_meet}
use mco_louna_task.Base.{any, true, arith, false, find, refl, some, ℕ, ◌≡◌}
use mco_louna_task.Concurrent.Processing.{
  Deliveries, Run, delivered, missing_payment, moves, settle_commit, settled, stopped, holding,
  updating, updated, begun, next, read_found, commit_settled,
}

-- every delivery is for the sample payment, and takes the same readings
abbrev readings : ℕ → World
readings _ = pending_world

abbrev sample_target : ℕ → Uuid
sample_target _ = sample_uuid 1

abbrev one_settled : Deliveries
one_settled =
    settle_commit pending_world sample_row 0
      (moves 0 (updating sample_row) (moves 0 (holding sample_row) (delivered pending_db)))

sample_settling : Run readings sample_target (delivered pending_db) one_settled
sample_settling =
    next
      (next
        (next begun (read_found 0 (λ _. false) sample_row refl (λ j r e. ground arith) refl refl))
        (updated 0 sample_row refl refl refl))
      (commit_settled 0 sample_row refl refl)

-- the delivery that settles the payment
abbrev only : ℕ
only = 0

Run-settles_once_example :
    (only ≡ only)
    × (find (has_id (sample_uuid 1)) one_settled.db.payments
        ≡ some (settle pending_world sample_row))
    × (any (has_event_id (settled_event_row sample_row pending_world).id) one_settled.db.outbox
        ≡ true)
Run-settles_once_example =
    Run-settles_once readings sample_target pending_db one_settled only only sample_row sample_row
      sample_settling refl refl refl

deliveries_meet_example :
    ((t : Deliveries) × Run readings sample_target (delivered pending_db) t
      × (t.stage 0 ≡ settled sample_row)
      × (t.stage 1 ≡ stopped (missing_payment (sample_uuid 1)))
      × (on_error (sample_uuid 2) 0 sample_message.body (missing_payment (sample_uuid 1))
          ≡ on_process_error (sample_uuid 2) 0 sample_message.body))
    × ((t : Deliveries) × Run readings sample_target (delivered pending_db) t
        × (t.stage 0 ≡ settled sample_row)
        × (e : Error) × (t.stage 1 ≡ stopped e)
        × (on_error (sample_uuid 2) 0 sample_message.body e ≡ pure tt))
deliveries_meet_example =
    deliveries_meet readings sample_target pending_db sample_row (sample_uuid 2) 0
      sample_message.body refl refl refl

process_payment-Run_example :
    IsRun (sample_uuid 1) pending_world (process_payment sample_event pending_world)
process_payment-Run_example = process_payment-Run (sample_uuid 1) sample_event pending_world refl
