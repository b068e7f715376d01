-- ===== src/UseCase/Create/Outcome.antt =====
-- The transaction of `CreatePaymentUseCase` and the whole call, on every branch.
use mco_louna_task.Storage.Numeric.{fits_column}
use mco_louna_task.Broker.Routes.{new_payments_q, payments_exchange}
use mco_louna_task.Broker.Bus.{delivery, publish_payment_events}
use mco_louna_task.Storage.Uow.{begin, discard, with_uow, commit}
use mco_louna_task.Storage.Payments.{
  stored_metadata, violates, insert_payment, row_of, add_payment, get_by_key,
}
use mco_louna_task.Serial.Value.{json_fields, json_value}
use mco_louna_task.Serial.Event.{parse_event_to_message, serialize_event}
use mco_louna_task.Domain.Event.{Event}
use mco_louna_task.Base.{
  inr, refl, ◌++◌, ◌≢◌, ◌⊎◌, List, [], ◌∷◌, ◌+◌, Bool, true, false, ◌≡◌, arith,
}
use mco_louna_task.Storage.Outbox.{insert_rows, add_events}
use mco_louna_task.Errors.{Error, Result, ok, err, publisher_unavailable}
use mco_louna_task.Domain.Laws.{now-ok}
use mco_louna_task.Domain.Payment.{Payment, record_event}
use mco_louna_task.UseCase.Create.{
  CreatePaymentCommand, CreatePaymentResponse, build_parts, create_payment, create_response,
  create_in_transaction, service_create, store_events, Parts, new_payment,
}
use mco_louna_task.UseCase.Create.Plan.{
  created_db, created_delivery, created_message, planned_parts, planned_payment, after_lookup,
  event_row, store, drawn_payment, drawn_event,
}
use mco_louna_task.UseCase.Create.Validation.{
  Built, build_parts-Built, is_rejection, create_id-Validates,
}
use mco_louna_task.Exec.{Database, pure, ◌>>=◌, World}

abbrev pub is_publisher_unavailable : Error → Bool
is_publisher_unavailable publisher_unavailable = true
is_publisher_unavailable _ = false

-- `new_payment` draws four readings and touches nothing else.
abbrev pub Drawn : Parts → World → Result Payment × World → Type 0
Drawn parts w (ok p, w') =
    (p ≡ record_event (drawn_event parts w) (drawn_payment parts w))
    × (w' ≡ record w { tick = w.tick + 1 + 1 + 1 + 1 })
Drawn parts w (err e, w') = (is_rejection e ≡ true) × (w'.db ≡ w.db) × (w'.sent ≡ w.sent)

pub new_payment-Drawn : (parts : Parts) (w : World) → Drawn parts w (new_payment parts w)
unfolding new_payment
new_payment-Drawn parts w = ground (
  arith,
  create_id-Validates w.env.dev (w.env.uuid4 w.tick),
  now-ok w.env.dev (w.env.clock (w.tick + 1)),
)

-- Storing the one event of a new payment writes its row and commits, or raises and commits nothing.
abbrev Stored : Event → Payment → World → Result (List Event × Payment) × World → Type 0
Stored e p w (ok (es, q), w') =
    let stored = insert_rows (event_row e p ∷ []) w.tx in
    (es ≡ e ∷ []) × (q ≡ p) × (w' ≡ record w { tx = stored; db = stored; tick = w.tick + 1 })
Stored e p w (err x, w') =
    (is_publisher_unavailable x ≡ false) × (w'.db ≡ w.db) × (w'.sent ≡ w.sent)

store_events-Stored :
    (parts : Parts) (v w : World)
    → Stored
        (drawn_event parts v)
        (drawn_payment parts v)
        w
        (store_events (record_event (drawn_event parts v) (drawn_payment parts v)) w)
unfolding store_events add_events serialize_event json_value commit
store_events-Stored parts v w = ground arith

-- No constraint forbids the row of the payment, its amount fits the column, and JSON carries its
-- metadata.
abbrev pub HasRoom : Payment → Database → Type 0
HasRoom p d =
    (violates (row_of p) d ≡ false)
    × (fits_column (row_of p).amount ≡ true)
    × (json_fields p.metadata.value ≡ ok (stored_metadata p.metadata.value))

-- The transaction, from any open state `w.tx`: it returns the new event and the payment, and has
-- committed the two rows together, which no constraint forbids; or it raises, and the committed state is as before.
abbrev pub InTransaction : Parts → World → Result (List Event × Payment) × World → Type 0
InTransaction parts w (ok (es, q), w') =
    let e = drawn_event parts (after_lookup w) in
    let p = drawn_payment parts (after_lookup w) in
    HasRoom p w.tx × (es ≡ e ∷ []) × (q ≡ p) × (w'.db ≡ store p e w.tx) × (w'.sent ≡ w.sent)
InTransaction parts w (err x, w') =
    (is_publisher_unavailable x ≡ false) × (w'.db ≡ w.db) × (w'.sent ≡ w.sent)

-- The world when the payment has been inserted.
abbrev inserted : Parts → World → World
inserted parts w = record w {
  tx = insert_payment (row_of (drawn_payment parts (after_lookup w))) w.tx;
  tick = w.tick + 1 + 1 + 1 + 1 + 1;
}

-- The transaction, on every branch.
pub create_in_transaction-InTransaction :
    (parts : Parts) (w : World) → InTransaction parts w (create_in_transaction parts w)
unfolding create_in_transaction service_create get_by_key add_payment
create_in_transaction-InTransaction parts w = ground (
  arith,
  new_payment-Drawn parts (after_lookup w),
  store_events-Stored parts (after_lookup w) (inserted parts w),
)

-- Publishing a creation event hands one message to the broker, or raises and hands over none.
abbrev Published : Event → Payment → World → Result (Unit {0}) × World → Type 0
Published e p w (ok _, w') =
    (w'.db ≡ w.db)
    × (w'.sent ≡ w.sent ++ delivery new_payments_q payments_exchange (created_message e p) ∷ [])
Published e p w (err x, w') = (x ≡ publisher_unavailable) × (w'.db ≡ w.db) × (w'.sent ≡ w.sent)

publish-Published :
    (parts : Parts) (v w : World)
    → Published
        (drawn_event parts v)
        (drawn_payment parts v)
        w
        (publish_payment_events (drawn_event parts v ∷ []) w)
unfolding publish_payment_events parse_event_to_message
publish-Published parts v w = ground arith

-- The committed state has the payment's row and its pending event, and had room for them.
abbrev pub Creates : CreatePaymentCommand → World → Database → Type 0
Creates c w d = HasRoom (planned_payment c w) w.db × (d ≡ created_db c w)

-- What a call of `create_payment` has done when it returns or raises.
abbrev pub Outcome : CreatePaymentCommand → World → Result CreatePaymentResponse × World → Type 0
Outcome c w (ok reply, w') =
    (reply ≡ create_response (planned_payment c w))
    × Creates c w w'.db
    × (w'.sent ≡ w.sent ++ created_delivery c w ∷ [])
Outcome c w (err x, w') =
    (w'.sent ≡ w.sent)
    × (((x ≡ publisher_unavailable) × Creates c w w'.db)
        ⊎ ((x ≢ publisher_unavailable) × (w'.db ≡ w.db)))

pub not_publisher : (x : Error) → is_publisher_unavailable x ≡ false → x ≢ publisher_unavailable
not_publisher x h e = ground arith

pub rejected_not_publisher : (x : Error) → is_rejection x ≡ true → x ≢ publisher_unavailable
rejected_not_publisher x h e = ground arith

-- The call after its value objects are built, from the result of the transaction.
publish_and_reply : Result (List Event × Payment) × World → Result CreatePaymentResponse × World
publish_and_reply x =
    ((λ (_ : World). (x.0, discard x.1)) >>= λ stored.
    publish_payment_events stored.0 >>= λ _. pure (create_response stored.1))
      x.1

publish_and_reply-Outcome :
    (c : CreatePaymentCommand) (w : World) (x : Result (List Event × Payment) × World)
    → InTransaction (planned_parts c) (begin w) x
    → Outcome c w (publish_and_reply x)
unfolding publish_and_reply create_response
publish_and_reply-Outcome c w (ok (es, q), w') (free, same_events, same_payment, db, sent) =
    rw (same_events, same_payment)
      (ground (arith, publish-Published (planned_parts c) (after_lookup w) (discard w')))
publish_and_reply-Outcome c w (err x, w') (other, db, sent) =
    (sent, inr (not_publisher x other, db))

-- The call, from the result of building the value objects.
run_and_publish : Result Parts × World → Result CreatePaymentResponse × World
run_and_publish x =
    ((λ (_ : World). x) >>= λ parts. with_uow (create_in_transaction parts) >>= λ stored.
    publish_payment_events stored.0 >>= λ _. pure (create_response stored.1))
      x.1

run_and_publish-Outcome :
    (c : CreatePaymentCommand) (w : World) (x : Result Parts × World)
    → Built c w x
    → Outcome c w (run_and_publish x)
unfolding run_and_publish publish_and_reply
run_and_publish-Outcome c w (ok p, w') (parts, same) =
    rw (parts, same)
      (publish_and_reply-Outcome c w (create_in_transaction (planned_parts c) (begin w))
        (create_in_transaction-InTransaction (planned_parts c) (begin w)))
run_and_publish-Outcome c w (err x, w') (why, same) =
    rw same (refl, inr (rejected_not_publisher x why, refl))

-- Every call of `create_payment`, whatever the world answers, ends in one of these ways. It
-- returns the response of the payment that it made, has committed that payment's row and its
-- pending event together, and has sent the one message. Or it raises `PublisherUnavailableError`,
-- has committed the same two rows and sent nothing. Or it raises another error, and the committed
-- state and the messages are those from before.
-- The INSERT of an event does nothing if the outbox has its identifier already.
pub create_payment-Outcome :
    (c : CreatePaymentCommand) (w : World) → Outcome c w (create_payment c w)
unfolding create_payment run_and_publish
create_payment-Outcome c w = run_and_publish-Outcome c w (build_parts c w) (build_parts-Built c w)
