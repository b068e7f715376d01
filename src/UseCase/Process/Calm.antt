-- ===== src/UseCase/Process/Calm.antt =====
-- `ProcessPayment` when nothing fails: a pending payment is settled.
use mco_louna_task.Domain.Identity.{is_version_4}
use mco_louna_task.Domain.Event.{Event}
use mco_louna_task.Broker.Bus.{publish_payment_events}
use mco_louna_task.Domain.Laws.{create_id-ok, now-ok}
use mco_louna_task.Values.{uuid, uuid_version, PaymentStatus, Uuid}
use mco_louna_task.UseCase.Process.Plan.{
  settled_delivery, settled_payment, settled_db, settled_event,
}
use mco_louna_task.UseCase.Process.Outcome.{after_read}
use mco_louna_task.UseCase.Create.{store_events, update_processed_payment}
use mco_louna_task.Storage.Uow.{begin, commit}
use mco_louna_task.Storage.Payments.{get_by_id, visible, has_id, to_domain, update}
use mco_louna_task.Storage.Outbox.{add_events}
use mco_louna_task.Serial.Value.{json_value}
use mco_louna_task.Serial.Event.{parse_event_to_message, serialize_event}
use mco_louna_task.Exec.{CallOutcome, CommitOutcome, Env, PaymentRow, World, ◌>>=◌}
use mco_louna_task.Errors.{ok}
use mco_louna_task.Domain.Payment.{mark_as_failed, mark_as_succeeded}
use mco_louna_task.Base.{
  any_of_find, subst, test_of_find, Bool, List, find, refl, some, ◌++◌, arith, [], any, false, true,
  ℕ, ◌+◌, ◌∷◌, ◌≡◌,
}
use mco_louna_task.UseCase.Process.{process_in_transaction, process_payment, emulate_processing}

-- commits and calls go through, and no other transaction holds a row
pub record IsCalm (env : Env) : Type 0 where
  pub commits : (n : ℕ) → env.commit n ≡ CommitOutcome.committed
  pub calls : (n : ℕ) → env.call n ≡ CallOutcome.published
  pub unlocked : (n : ℕ) (u : Uuid) → env.locked n u ≡ false

-- the world in which the transaction has been committed
abbrev pub settled_world : PaymentRow → World → World
settled_world row w = record w {
  tx = settled_db row (after_read w) w.tx;
  db = settled_db row (after_read w) w.tx;
  tick = w.tick + 1 + 1 + 1 + 1 + 1 + 1;
}

stored_calm :
    (row : PaymentRow) (w : World)
    → IsCalm w.env
    → row.status ≡ PaymentStatus.pending
    → any (has_id row.id) w.tx.payments ≡ true
    → (emulate_processing (to_domain row) >>= λ processed.
          update_processed_payment processed >>= λ updated. store_events updated)
        (after_read w)
      ≡ (
        ok (settled_event row (after_read w) ∷ [], settled_payment row (after_read w)),
        settled_world row w,
      )
unfolding emulate_processing update_processed_payment store_events update to_domain
    mark_as_succeeded mark_as_failed add_events serialize_event json_value commit
stored_calm row w calm fresh stored = ground (
  arith,
  now-ok w.env.dev (w.env.clock (w.tick + 1 + 1)),
  fresh,
  stored,
  calm.commits (w.tick + 1 + 1 + 1 + 1 + 1),
)

find_unlocked :
    (locked : Uuid → Bool) (u : Uuid) (rows : List PaymentRow)
    → ((v : Uuid) → locked v ≡ false)
    → find (visible locked (has_id u)) rows ≡ find (has_id u) rows
find_unlocked locked u [] free = refl
find_unlocked locked u (r ∷ rows) free = ground (arith, free r.id, find_unlocked locked u rows free)

-- the world after the call
abbrev pub processed_world : PaymentRow → World → World
processed_world row w = record w {
  tx = settled_db row (after_read w) w.db;
  db = settled_db row (after_read w) w.db;
  tick = w.tick + 1 + 1 + 1 + 1 + 1 + 1 + 1;
  sent = w.sent ++ settled_delivery row (after_read w) ∷ [];
}

published_calm :
    (row : PaymentRow) (w : World)
    → IsCalm w.env
    → publish_payment_events (settled_event row (after_read w) ∷ []) (settled_world row (begin w))
      ≡ (ok tt, processed_world row w)
unfolding publish_payment_events parse_event_to_message to_domain
published_calm row w calm = ground (arith, calm.calls (w.tick + 1 + 1 + 1 + 1 + 1 + 1))

-- When nothing fails, the call for a pending payment with a version 4 UUID returns, and has
-- committed its result with the event and sent the message.
pub process_payment-IsCalm :
    (u : Uuid) (event : Event) (w : World) (row : PaymentRow)
    → event.payment_id ≡ uuid u
    → is_version_4 (uuid_version u) ≡ true
    → IsCalm w.env
    → find (has_id u) w.db.payments ≡ some row
    → row.status ≡ PaymentStatus.pending
    → process_payment event w ≡ (ok tt, processed_world row w)
unfolding process_payment process_in_transaction get_by_id
process_payment-IsCalm u event w row e v4 calm found fresh =
    let p = has_id u in
    let known : any (has_id row.id) w.db.payments ≡ true =
      subst (λ v. any (has_id v) w.db.payments ≡ true)
        (ground (arith, test_of_find p w.db.payments row found))
        (any_of_find p w.db.payments row found) in
    rw e (
      ground (
        arith,
        create_id-ok w.env.dev u v4,
        find_unlocked (w.env.locked w.tick) u w.db.payments (calm.unlocked w.tick),
        found,
        stored_calm row (begin w) calm fresh known,
        published_calm row w calm,
      ))
