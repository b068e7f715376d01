-- ===== src/UseCase/Ports/Publication.antt =====
-- What the use cases ask of an event bus, whatever the bus does: nothing before the commit, and
-- after it the events that were committed.
use mco_louna_task.Values.{PaymentStatus, Uuid, uuid}
use mco_louna_task.UseCase.Process.Plan.{settled_db, settled_event}
use mco_louna_task.UseCase.Process.Outcome.{
  Transacts, after_read, process_in_transaction-Transacts, target,
}
use mco_louna_task.UseCase.Process.{process_in_transaction, process_payment}
use mco_louna_task.Broker.Bus.{amqp_publisher}
use mco_louna_task.UseCase.Create.Validation.{Built, build_parts-Built}
use mco_louna_task.UseCase.Create.Plan.{planned_event, planned_parts, planned_payment}
use mco_louna_task.UseCase.Create.Outcome.{
  Creates, InTransaction, create_in_transaction-InTransaction,
}
use mco_louna_task.UseCase.Create.{
  create_payment, update_processed_payment, CreatePaymentCommand, CreatePaymentResponse, Parts,
  build_parts, create_in_transaction, create_response, service_create, store_events,
}
use mco_louna_task.Storage.Uow.{begin, discard, with_uow}
use mco_louna_task.Storage.Repository.{sql_uow}
use mco_louna_task.Interfaces.{PaymentEventBus}
use mco_louna_task.Exec.{PaymentRow, World, pure, ◌>>=◌}
use mco_louna_task.Errors.{Error, Result, err, ok}
use mco_louna_task.Domain.Payment.{Payment}
use mco_louna_task.Domain.Event.{Event}
use mco_louna_task.Base.{some, List, [], ap, inl, inr, refl, ◌∷◌, ◌≡◌, ◌⊎◌}
use mco_louna_task.UseCase.Ports.{
  create_payment_lem, process_payment_lem, process_payment_with, create_payment_with,
}

-- The call raises, and has committed and sent nothing and not asked the bus; or the payment and its
-- event are committed, and the rest of the call is the bus's work on this event and the response.
abbrev pub AsksToCreate :
    PaymentEventBus → CreatePaymentCommand → World → Result CreatePaymentResponse × World → Type 0
AsksToCreate bus c w x =
    ((e : Error) × (v : World) × (x ≡ (err e, v)) × (v.db ≡ w.db) × (v.sent ≡ w.sent))
    ⊎ ((v : World) × Creates c w v.db
        × (v.sent ≡ w.sent)
        × (x
            ≡ (bus.publish_payment_events (planned_event c w ∷ []) >>= λ _.
                  pure (create_response (planned_payment c w)))
                v))

reply_of :
    (bus : PaymentEventBus)
    → Result (List Event × Payment) × World
    → Result CreatePaymentResponse × World
reply_of bus x =
    ((λ (_ : World). (x.0, discard x.1)) >>= λ stored.
    bus.publish_payment_events stored.0 >>= λ _. pure (create_response stored.1))
      x.1

stored_asks :
    (bus : PaymentEventBus) (c : CreatePaymentCommand) (w : World)
    (x : Result (List Event × Payment) × World)
    → InTransaction (planned_parts c) (begin w) x
    → AsksToCreate bus c w (reply_of bus x)
unfolding reply_of
stored_asks bus c w (ok (es, p), v) (free, es_eq, p_eq, db, sent) =
    inr (discard v, (free, db), sent, rw (es_eq, p_eq) refl)
stored_asks bus c w (err e, v) (other, db, sent) = inl (e, discard v, refl, db, sent)

Built-asks :
    (bus : PaymentEventBus) (c : CreatePaymentCommand) (w : World) (x : Result Parts × World)
    → Built c w x
    → AsksToCreate bus c w (
        ((λ (_ : World). x) >>= λ parts. with_uow (create_in_transaction parts) >>= λ stored.
        bus.publish_payment_events stored.0 >>= λ _. pure (create_response stored.1))
          w)
unfolding reply_of
Built-asks bus c w (ok p, v) (parts, same) =
    rw (parts, same)
      (stored_asks bus c w (create_in_transaction (planned_parts c) (begin w))
        (create_in_transaction-InTransaction (planned_parts c) (begin w)))
Built-asks bus c w (err e, v) (why, same) =
    inl (e, v, refl, ap (λ (u : World). u.db) same, ap (λ (u : World). u.sent) same)

create-AsksToCreate :
    (bus : PaymentEventBus) (c : CreatePaymentCommand) (w : World)
    → AsksToCreate bus c w (create_payment_with sql_uow bus c w)
unfolding create_in_transaction service_create store_events
create-AsksToCreate bus c w = Built-asks bus c w (build_parts c w) (build_parts-Built c w)

-- The same of `ProcessPayment`, for the payment of the identifier: the settled row and its event are
-- committed when the bus is asked.
abbrev pub AsksToProcess : PaymentEventBus → Uuid → World → Result (Unit {0}) × World → Type 0
AsksToProcess bus u w x =
    ((e : Error) × (v : World) × (x ≡ (err e, v)) × (v.db ≡ w.db) × (v.sent ≡ w.sent))
    ⊎ ((row : PaymentRow) × (v : World) × (target u (begin w) ≡ some row)
        × (row.status ≡ PaymentStatus.pending)
        × (v.db ≡ settled_db row (after_read w) w.db)
        × (v.sent ≡ w.sent)
        × (x ≡ bus.publish_payment_events (settled_event row (after_read w) ∷ []) v))

settled_asks :
    (bus : PaymentEventBus) (u : Uuid) (w : World) (x : Result (List Event × Payment) × World)
    → Transacts u (begin w) x
    → AsksToProcess bus u w
        (((λ (_ : World). (x.0, discard x.1)) >>= λ stored. bus.publish_payment_events stored.0) w)
settled_asks bus u w (ok (es, p), v) (row, found, fresh, es_eq, db, sent) = inr (
  row,
  discard v,
  found,
  fresh,
  db,
  sent,
  ap (λ events. bus.publish_payment_events events (discard v)) es_eq,
)
settled_asks bus u w (err e, v) (other, db, sent) = inl (e, discard v, refl, db, sent)

process-AsksToProcess :
    (bus : PaymentEventBus) (u : Uuid) (event : Event) (w : World)
    → event.payment_id ≡ uuid u
    → AsksToProcess bus u w (process_payment_with sql_uow bus event w)
unfolding process_in_transaction update_processed_payment store_events
process-AsksToProcess bus u event w e = rw e (
    settled_asks bus u w (process_in_transaction (uuid u) (begin w))
      (process_in_transaction-Transacts u (begin w)))

-- Whatever an event bus does, the creation and the processing of a payment ask it for nothing that
-- is not committed. Each of them raises, has committed and sent nothing and has not asked the bus;
-- or the payment (created, or with its result) and its one event are committed together, nothing is
-- sent yet, and what is left of the call is to publish this event and to answer. With the publisher
-- of the service they are the use cases that it runs. The processed event carries a UUID.
-- The INSERT of an event does nothing if the outbox has its identifier already.
pub use_cases-Asks :
    (bus : PaymentEventBus) (c : CreatePaymentCommand) (u : Uuid) (event : Event) (w : World)
    → event.payment_id ≡ uuid u
    → AsksToCreate bus c w (create_payment_with sql_uow bus c w)
      × AsksToProcess bus u w (process_payment_with sql_uow bus event w)
      × (create_payment_with sql_uow amqp_publisher ≡ create_payment)
      × (process_payment_with sql_uow amqp_publisher ≡ process_payment)
use_cases-Asks bus c u event w e = (
  create-AsksToCreate bus c w,
  process-AsksToProcess bus u event w e,
  create_payment_lem,
  process_payment_lem,
)
