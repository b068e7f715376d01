-- ===== src/System/Settlement.antt =====
-- A delivery to the consumer of new payments when nothing fails.
use mco_louna_task.UseCase.Process.Plan.{settle, settled_db, settled_delivery, settled_event_row}
use mco_louna_task.UseCase.Process.Outcome.{after_read}
use mco_louna_task.System.Progress.{find_update}
use mco_louna_task.System.Claims.{IsClaimable, claim_event-world, claim_once, claimed_world}
use mco_louna_task.Storage.Payments.{has_id}
use mco_louna_task.Domain.Identity.{is_version_4}
use mco_louna_task.Domain.Event.{Event}
use mco_louna_task.Consumer.Process.{handle_new_payment, process_and_settle, run_process}
use mco_louna_task.Values.{PaymentStatus, uuid, uuid_version, TaskStatus, Uuid}
use mco_louna_task.Storage.Uow.{commit}
use mco_louna_task.Storage.Outbox.{
  insert_all, has_event_id, insert_event, is_pending_task, mark_processed, set_status, unlocked,
  update_events,
}
use mco_louna_task.Exec.{PaymentRow, OutboxRow, World}
use mco_louna_task.Errors.{ok}
use mco_louna_task.Consumer.Message.{Message, claim_event, settle_task}
use mco_louna_task.Base.{
  find, some, subst, sym, test_of_find, update_where, ◌++◌, Bool, List, [], any, any-append, arith,
  false, refl, true, ◌&&◌, ◌+◌, ◌∷◌, ◌≡◌,
}
use mco_louna_task.UseCase.Process.Calm.{process_payment-IsCalm, processed_world, IsCalm}

pub known_of_claimable :
    (u : Uuid) (rows : List OutboxRow)
    → any (λ row. has_event_id u row && is_pending_task row) rows ≡ true
    → any (has_event_id u) rows ≡ true
known_of_claimable u [] h = h
known_of_claimable u (r ∷ rows) h = ground (arith, known_of_claimable u rows)

pub any-insert_event :
    (u : Uuid) (e : OutboxRow) (rows : List OutboxRow)
    → any (has_event_id u) rows ≡ true
    → any (has_event_id u) (insert_event e rows) ≡ true
unfolding insert_event
any-insert_event u e rows h = ground (arith, any-append (has_event_id u) rows (e ∷ []))

any-unlocked :
    (locked : Uuid → Bool) (u : Uuid) (rows : List OutboxRow)
    → ((v : Uuid) → locked v ≡ false)
    → any (unlocked locked (has_event_id u)) rows ≡ any (has_event_id u) rows
any-unlocked locked u [] free = refl
any-unlocked locked u (r ∷ rows) free = ground (arith, free r.id, any-unlocked locked u rows free)

abbrev pub task_world : TaskStatus → Uuid → World → World
task_world s u w =
    let d = update_events u (set_status s) w.db in
    record w { tx = d; db = d; tick = w.tick + 1 + 1 }

pub settle_task-IsCalm :
    (s : TaskStatus) (u : Uuid) (w : World)
    → IsCalm w.env
    → any (has_event_id u) w.db.outbox ≡ true
    → settle_task u s w ≡ (ok tt, task_world s u w)
unfolding settle_task mark_processed commit
settle_task-IsCalm s u w calm known = ground (
  arith,
  known,
  any-unlocked (w.env.locked w.tick) u w.db.outbox (calm.unlocked w.tick),
  calm.commits (w.tick + 1),
)

pub claimed_event :
    (u : Uuid) (w : World)
    → IsCalm w.env
    → IsClaimable u w
    → claim_event u w ≡ (ok true, claimed_world w)
claimed_event u w calm h =
    let (b, claimed) = claim_event-world u w in
    ground (arith, claimed, claim_once u w (calm.unlocked (w.tick + 1) u) h)

known_after_settling :
    (u : Uuid) (row : PaymentRow) (v w : World)
    → IsClaimable u w
    → any (has_event_id u) (settled_db row v w.db).outbox ≡ true
unfolding insert_all
known_after_settling u row v w h =
    any-insert_event u (settled_event_row row v) w.db.outbox (known_of_claimable u w.db.outbox h)

found_settled :
    (u : Uuid) (row : PaymentRow) (v w : World)
    → find (has_id u) w.db.payments ≡ some row
    → find (has_id u) (settled_db row v w.db).payments ≡ some (settle v row)
found_settled u row v w found =
    subst
      (λ x.
        find (has_id u) (update_where (has_id x) (settle v) w.db.payments) ≡ some (settle v row))
      (sym (ground (arith, test_of_find (has_id u) w.db.payments row found)))
      (find_update u (settle v) w.db.payments row (λ r. refl) found)

-- A delivery of a pending event settles its payment when nothing fails: commits and calls of the
-- broker go through and no other transaction holds a row. The handler returns and acknowledges the
-- message once; the payment, which was pending and is found by its version 4 UUID, has its result;
-- the event of the result is stored and its message sent; and the event that was delivered is
-- confirmed.
pub handle_new_payment-settles :
    (msg : Message) (u : Uuid) (event : Event) (w : World) (row : PaymentRow)
    → event.payment_id ≡ uuid u
    → is_version_4 (uuid_version u) ≡ true
    → IsCalm w.env
    → find (has_id u) w.db.payments ≡ some row
    → row.status ≡ PaymentStatus.pending
    → IsClaimable event.id w
    → let v = after_read (claimed_world w) in
      let (r, w') = handle_new_payment msg event w in
      (r ≡ ok tt)
      × (w'.acks ≡ w.acks + 1)
      × (find (has_id u) w'.db.payments ≡ some (settle v row))
      × (w'.db ≡ update_events event.id (set_status TaskStatus.confirmed) (settled_db row v w.db))
      × (w'.sent ≡ w.sent ++ settled_delivery row v ∷ [])
unfolding handle_new_payment run_process process_and_settle
handle_new_payment-settles msg u event w row e v4 calm found fresh claimable = ground (
  arith,
  claimed_event event.id w calm claimable,
  process_payment-IsCalm u event (claimed_world w) row e v4 calm found fresh,
  settle_task-IsCalm TaskStatus.confirmed event.id (processed_world row (claimed_world w)) calm
      (known_after_settling event.id row (after_read (claimed_world w)) w claimable),
  found_settled u row (after_read (claimed_world w)) w found,
)
