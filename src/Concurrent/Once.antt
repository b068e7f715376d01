-- ===== src/Concurrent/Once.antt =====
-- Deliveries of one payment at the same time: one of them settles it, and what the others meet.
use mco_louna_task.Storage.Outbox.{has_event_id}
use mco_louna_task.System.Progress.{find_update}
use mco_louna_task.Consumer.Process.{on_error, on_process_error}
use mco_louna_task.System.Refinement.{not_pending, find-visible}
use mco_louna_task.Values.{Value, PaymentStatus, Uuid}
use mco_louna_task.UseCase.Process.Plan.{settled_event_row, settle}
use mco_louna_task.Concurrent.Safety.{Run-IsSafe}
use mco_louna_task.Storage.Payments.{visible, has_id}
use mco_louna_task.Exec.{pure, Database, PaymentRow, World}
use mco_louna_task.Errors.{Error, business_rule, simple_error}
use mco_louna_task.Base.{
  any, true, ap, subst, sym, update_where, List, [], arith, false, refl, test_of_find, ◌∙◌, ◌∷◌,
  Bool, find, none, some, ℕ, ◌==◌, ◌≡◌,
}
use mco_louna_task.Concurrent.Processing.{
  Covers, missing_payment, Deliveries, Run, delivered, moves, settle_commit, settled, stopped,
  holding, updating, refused, updated, begun, next, read_missed, read_found, commit_settled,
}

-- However many deliveries of one payment are processed at the same time, and in whatever order their
-- statements run, at most one of them settles the payment: two that have settled the same payment
-- are the same delivery. Then and later the payment has the result, the time and all else that this
-- delivery gave it, and the outbox has the event of its result, while other deliveries stop,
-- requests create payments and events are settled.
pub Run-settles_once :
    (x : ℕ → World) (target : ℕ → Uuid) (d : Database) (t : Deliveries) (i j : ℕ)
    (row other : PaymentRow)
    → Run x target (delivered d) t
    → t.stage i ≡ settled row
    → t.stage j ≡ settled other
    → target i ≡ target j
    → (i ≡ j)
      × (find (has_id (target i)) t.db.payments ≡ some (settle (x i) row))
      × (any (has_event_id (settled_event_row row (x i)).id) t.db.outbox ≡ true)
Run-settles_once x target d t i j row other r e e' same =
    let h = Run-IsSafe x target d t r in
    (h.one i j row other e e' same, h.final i row e, h.told i row e)

-- the rows that are locked while one delivery for `u` is in its transaction
abbrev holds : Uuid → Uuid → Bool
holds u v = v == u

nothing_locked :
    (u v : Uuid) (rows : List PaymentRow) → v ≡ u → find (visible (holds u) (has_id v)) rows ≡ none
nothing_locked u v [] same = refl
nothing_locked u v (r ∷ rows) same = ground (arith, nothing_locked u v rows)

module _ (x : ℕ → World) (target : ℕ → Uuid) (d : Database) (row : PaymentRow)
    (found : find (has_id (target 0)) d.payments ≡ some row)
    (fresh : row.status ≡ PaymentStatus.pending) (same : target 0 ≡ target 1) where
  first_holds : Deliveries
  first_holds = moves 0 (holding row) (delivered d)

  row_id : row.id ≡ target 0
  row_id = ground (arith, test_of_find (has_id (target 0)) d.payments row found)

  holding_first : Run x target (delivered d) first_holds
  unfolding first_holds
  holding_first = next begun (
      read_found 0 (λ _. false) row refl (λ j r e. ground arith)
        (find-visible (λ _. false) (target 0) d.payments refl ∙ found) refl)

  covered : Covers (holds row.id) first_holds
  unfolding first_holds
  covered j r e = ground arith

  -- The second reads while the first holds the row.
  locked_out : Deliveries
  locked_out =
      settle_commit (x 0) row 0
        (moves 0 (updating row) (moves 1 (stopped (missing_payment (target 1))) first_holds))

  Run-locked_out : Run x target (delivered d) locked_out
  unfolding locked_out first_holds
  Run-locked_out =
      next
        (next
          (next holding_first (
            read_missed 1 (holds row.id) refl covered
              (nothing_locked row.id (target 1) d.payments (sym same ∙ sym row_id)) refl))
          (updated 0 row refl fresh refl))
        (commit_settled 0 row refl refl)

  first_settled : Deliveries
  first_settled = settle_commit (x 0) row 0 (moves 0 (updating row) first_holds)

  found_settled :
      find (visible (λ _. false) (has_id (target 1))) first_settled.db.payments
      ≡ some (settle (x 0) row)
  unfolding first_settled first_holds
  found_settled =
      find-visible (λ _. false) (target 1) (update_where (has_id row.id) (settle (x 0)) d.payments)
        refl
      ∙ subst
          (λ u.
            find (has_id u) (update_where (has_id row.id) (settle (x 0)) d.payments)
            ≡ some (settle (x 0) row))
          (row_id ∙ same)
          (find_update row.id (settle (x 0)) d.payments row (λ r. refl)
            (ground (arith, ap (λ u. find (has_id u) d.payments) row_id)))

  came_late : Deliveries
  came_late =
      moves 1 (stopped (simple_error business_rule "Already processed"))
        (moves 1 (holding (settle (x 0) row)) first_settled)

  -- The first is settled before the second reads.
  Run-came_late : Run x target (delivered d) came_late
  unfolding came_late first_settled first_holds
  Run-came_late =
      next
        (next
          (next (next holding_first (updated 0 row refl fresh refl))
            (commit_settled 0 row refl refl))
          (read_found 1 (λ _. false) (settle (x 0) row) refl (λ j r e. ground arith) found_settled
            refl))
        (refused 1 (settle (x 0) row) refl (not_pending ((x 0).env.success (x 0).tick)) refl)

-- Two deliveries of one pending payment can meet in two ways, and in both the first settles it. If
-- the second reads while the first holds the row, the payment counts as not found, and the consumer
-- handles this as a failure of processing: it retries the message, or gives it up. If the second
-- reads after the commit of the first, the payment is already processed, and the consumer does
-- nothing.
pub deliveries_meet :
    (x : ℕ → World) (target : ℕ → Uuid) (d : Database) (row : PaymentRow) (event_id : Uuid)
    (attempt : ℕ) (body : Value)
    → find (has_id (target 0)) d.payments ≡ some row
    → row.status ≡ PaymentStatus.pending
    → target 0 ≡ target 1
    → ((t : Deliveries) × Run x target (delivered d) t
        × (t.stage 0 ≡ settled row)
        × (t.stage 1 ≡ stopped (missing_payment (target 1)))
        × (on_error event_id attempt body (missing_payment (target 1))
            ≡ on_process_error event_id attempt body))
      × ((t : Deliveries) × Run x target (delivered d) t
          × (t.stage 0 ≡ settled row)
          × (e : Error) × (t.stage 1 ≡ stopped e)
          × (on_error event_id attempt body e ≡ pure tt))
unfolding locked_out first_holds came_late first_settled
deliveries_meet x target d row event_id attempt body found fresh same = (
  (_, Run-locked_out x target d row found fresh same, refl, refl, refl),
  (_, Run-came_late x target d row found fresh same, refl, _, refl, refl),
)
