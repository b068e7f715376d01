-- ===== src/UseCase/Process/Outcome.antt =====
-- The transaction of `ProcessPayment` and the whole call, on every branch.
use mco_louna_task.Domain.Identity.{create_payment_id}
use mco_louna_task.Broker.Bus.{publish_payment_events}
use mco_louna_task.UseCase.Create.Validation.{create_id-Validates, Validates}
use mco_louna_task.UseCase.Create.Plan.{checked}
use mco_louna_task.Domain.ValueObject.{ValueObject}
use mco_louna_task.Values.{uuid, Uuid, PaymentStatus}
use mco_louna_task.UseCase.Process.Plan.{settled_delivery, settled_db, settled_event}
use mco_louna_task.UseCase.Process.{process_in_transaction, process_payment, emulate_processing}
use mco_louna_task.UseCase.Create.Outcome.{not_publisher, is_publisher_unavailable}
use mco_louna_task.UseCase.Create.{store_events, update_processed_payment}
use mco_louna_task.Storage.Uow.{begin, discard, commit}
use mco_louna_task.Storage.Payments.{found_or_raise, get_by_id, has_id, visible, to_domain, update}
use mco_louna_task.Storage.Outbox.{add_events}
use mco_louna_task.Serial.Value.{json_value}
use mco_louna_task.Serial.Event.{parse_event_to_message, serialize_event}
use mco_louna_task.Exec.{lift, PaymentRow, World, ◌>>=◌}
use mco_louna_task.Errors.{publisher_unavailable, business_rule, simple_error, Result, err, ok}
use mco_louna_task.Domain.Payment.{Payment, mark_as_failed, mark_as_succeeded}
use mco_louna_task.Domain.Laws.{now-ok}
use mco_louna_task.Domain.Event.{Event}
use mco_louna_task.Base.{
  inl, inr, subst, sym, ◌++◌, ◌∙◌, ◌⊎◌, Option, find, none, refl, some, ◌≢◌, List, [], arith, false,
  ◌+◌, ◌∷◌, ◌≡◌,
}

-- The part of the transaction that follows the reading of a row.
settle_row_and_store : PaymentRow → World → Result (List Event × Payment) × World
settle_row_and_store row = emulate_processing (to_domain row) >>= λ processed.
    update_processed_payment processed >>= λ updated. store_events updated

-- From an open transaction whose payments hold the row, it settles a pending row and commits its
-- event with it, or raises and commits nothing.
abbrev Settles : PaymentRow → World → Result (List Event × Payment) × World → Type 0
Settles row w (ok (es, p), w') =
    (row.status ≡ PaymentStatus.pending)
    × (es ≡ settled_event row w ∷ [])
    × (w'.db ≡ settled_db row w w.tx)
    × (w'.sent ≡ w.sent)
    × (w'.env ≡ w.env)
    × (w'.tick ≡ w.tick + 1 + 1 + 1 + 1 + 1)
Settles row w (err x, w') =
    (is_publisher_unavailable x ≡ false) × (w'.db ≡ w.db) × (w'.sent ≡ w.sent)

settle-Settles : (row : PaymentRow) (w : World) → Settles row w (settle_row_and_store row w)
unfolding settle_row_and_store emulate_processing update_processed_payment store_events update
    to_domain mark_as_succeeded mark_as_failed add_events serialize_event json_value commit
settle-Settles row w = ground (arith, now-ok w.env.dev (w.env.clock (w.tick + 1)))

-- A payment that was settled before is refused with "Already processed".
settle_again :
    (row : PaymentRow) (w : World)
    → row.status ≢ PaymentStatus.pending
    → (settle_row_and_store row w).0 ≡ err (simple_error business_rule "Already processed")
unfolding settle_row_and_store emulate_processing to_domain mark_as_succeeded mark_as_failed
settle_again row w h = ground arith

-- The row that `get_by_id` reads at the start of a transaction: no other transaction locks it.
abbrev pub target : Uuid → World → Option PaymentRow
target u w = find (visible (w.env.locked w.tick) (has_id u)) w.tx.payments

abbrev pub after_read : World → World
after_read w = record w { tick = w.tick + 1 }

-- The part of the transaction that follows the lookup.
continue_with : Uuid → Option PaymentRow → World → Result (List Event × Payment) × World
continue_with u row = found_or_raise u row >>= λ payment.
    emulate_processing payment >>= λ processed.
    update_processed_payment processed >>= λ updated. store_events updated

-- The transaction on the payment identified by `u`.
abbrev pub Transacts : Uuid → World → Result (List Event × Payment) × World → Type 0
Transacts u w (ok (es, p), w') =
    (row : PaymentRow) × (target u w ≡ some row)
    × (row.status ≡ PaymentStatus.pending)
    × (es ≡ settled_event row (after_read w) ∷ [])
    × (w'.db ≡ settled_db row (after_read w) w.tx)
    × (w'.sent ≡ w.sent)
Transacts u w (err x, w') =
    (is_publisher_unavailable x ≡ false) × (w'.db ≡ w.db) × (w'.sent ≡ w.sent)

of_settled :
    (u : Uuid) (w : World) (row : PaymentRow) (x : Result (List Event × Payment) × World)
    → target u w ≡ some row
    → Settles row (after_read w) x
    → Transacts u w x
of_settled u w row (ok (es, p), w') found (fresh, es_eq, db, sent, _, _) =
    (row, found, fresh, es_eq, db, sent)
of_settled u w row (err x, w') found h = h

continue-Transacts :
    (u : Uuid) (w : World) (found : Option PaymentRow)
    → target u w ≡ found
    → Transacts u w (continue_with u found (after_read w))
unfolding continue_with settle_row_and_store
continue-Transacts u w none h = (refl, refl, refl)
continue-Transacts u w (some row) h =
    of_settled u w row (settle_row_and_store row (after_read w)) h
      (settle-Settles row (after_read w))

-- The transaction, from the checked identifier.
from_id : Result (ValueObject Uuid) → World → Result (List Event × Payment) × World
from_id id = lift id >>= λ checked_id. get_by_id checked_id.value >>= λ payment.
    emulate_processing payment >>= λ processed.
    update_processed_payment processed >>= λ updated. store_events updated

from_id-Transacts :
    (u : Uuid) (w : World) (id : Result (ValueObject Uuid))
    → Validates (checked u) id
    → Transacts u w (from_id id w)
unfolding from_id get_by_id continue_with
from_id-Transacts u w (ok id) h =
    subst (λ i. Transacts u w (from_id (ok i) w)) (sym h) (continue-Transacts u w (target u w) refl)
from_id-Transacts u w (err x) h = (ground arith, refl, refl)

pub process_in_transaction-Transacts :
    (u : Uuid) (w : World) → Transacts u w (process_in_transaction (uuid u) w)
unfolding process_in_transaction from_id
process_in_transaction-Transacts u w =
    from_id-Transacts u w (create_payment_id w.env.dev (uuid u)) (create_id-Validates w.env.dev u)

-- What a call of `process_payment` has done when it returns or raises, for the identifier in the
-- event.
abbrev pub Outcome : Uuid → World → Result (Unit {0}) × World → Type 0
Outcome u w (ok _, w') =
    (row : PaymentRow) × (target u (begin w) ≡ some row)
    × (row.status ≡ PaymentStatus.pending)
    × (w'.db ≡ settled_db row (after_read w) w.db)
    × (w'.sent ≡ w.sent ++ settled_delivery row (after_read w) ∷ [])
Outcome u w (err x, w') =
    (w'.sent ≡ w.sent)
    × (((x ≢ publisher_unavailable) × (w'.db ≡ w.db))
        ⊎ ((row : PaymentRow) × (x ≡ publisher_unavailable)
            × (target u (begin w) ≡ some row)
            × (row.status ≡ PaymentStatus.pending)
            × (w'.db ≡ settled_db row (after_read w) w.db)))

publish-settled :
    (row : PaymentRow) (v w : World)
    → let (r, w') = publish_payment_events (settled_event row v ∷ []) w in
      (w'.db ≡ w.db)
      × (((r ≡ ok tt) × (w'.sent ≡ w.sent ++ settled_delivery row v ∷ []))
          ⊎ ((r ≡ err publisher_unavailable) × (w'.sent ≡ w.sent)))
unfolding publish_payment_events parse_event_to_message to_domain
publish-settled row v w = ground arith

-- The call, from the result of the transaction.
publish_stored : Result (List Event × Payment) × World → Result (Unit {0}) × World
publish_stored x =
    ((λ (_ : World). (x.0, discard x.1)) >>= λ stored. publish_payment_events stored.0) x.1

published-Outcome :
    (u : Uuid) (w : World) (row : PaymentRow) (x : Result (Unit {0}) × World)
    → target u (begin w) ≡ some row
    → row.status ≡ PaymentStatus.pending
    → x.1.db ≡ settled_db row (after_read w) w.db
    → ((x.0 ≡ ok tt) × (x.1.sent ≡ w.sent ++ settled_delivery row (after_read w) ∷ []))
      ⊎ ((x.0 ≡ err publisher_unavailable) × (x.1.sent ≡ w.sent))
    → Outcome u w x
published-Outcome u w row (ok _, w') found fresh db (inl h) = (row, found, fresh, db, h.1)
published-Outcome u w row (ok _, w') found fresh db (inr h) = absurd (cc h.0)
published-Outcome u w row (err x, w') found fresh db (inl h) = absurd (cc h.0)
published-Outcome u w row (err x, w') found fresh db (inr h) =
    (h.1, inr (row, ground (arith, h.0), found, fresh, db))

publish_stored-Outcome :
    (u : Uuid) (w : World) (x : Result (List Event × Payment) × World)
    → Transacts u (begin w) x
    → Outcome u w (publish_stored x)
unfolding publish_stored
publish_stored-Outcome u w (ok (es, p), w') (row, found, fresh, es_eq, db, sent) = rw es_eq (
    published-Outcome u w row
      (publish_payment_events (settled_event row (after_read w) ∷ []) (discard w')) found fresh
      ((publish-settled row (after_read w) (discard w')).0 ∙ db)
      (ground (arith, publish-settled row (after_read w) (discard w'))))
publish_stored-Outcome u w (err x, w') (other, db, sent) = (sent, inl (not_publisher x other, db))

-- Every call of `process_payment` for an event that carries the UUID `u`, whatever the world
-- answers, ends in one of these ways. It returns: a row of that identifier that no other
-- transaction locks was pending, its new status and the event of the result are committed
-- together, and the one message is sent. Or it raises `PublisherUnavailableError` with the same
-- rows committed and nothing sent. Or it raises another error, and the committed state and the
-- messages are those from before.
-- The INSERT of an event does nothing if the outbox has its identifier already.
pub process_payment-Outcome :
    (u : Uuid) (event : Event) (w : World)
    → event.payment_id ≡ uuid u
    → Outcome u w (process_payment event w)
unfolding process_payment publish_stored
process_payment-Outcome u event w e = rw e (
    publish_stored-Outcome u w (process_in_transaction (uuid u) (begin w))
      (process_in_transaction-Transacts u (begin w)))
