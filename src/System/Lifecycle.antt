-- ===== src/System/Lifecycle.antt =====
-- The way of a payment through the service when nothing fails: the request, the consumer of new
-- payments, the notifier.
use mco_louna_task.System.Notified.{handle_processed-tells, IsAnswered}
use mco_louna_task.Notifier.Sender.{is_http}
use mco_louna_task.Notifier.Payload.{expected_payload}
use mco_louna_task.Notifier.Attempts.{post_of}
use mco_louna_task.Http.Routes.{answered}
use mco_louna_task.Consumer.Notify.{handle_notify_client}
use mco_louna_task.UseCase.Process.Outcome.{after_read}
use mco_louna_task.UseCase.Process.Calm.{IsCalm}
use mco_louna_task.System.Settlement.{handle_new_payment-settles}
use mco_louna_task.System.Claims.{IsClaimable, claimed_world}
use mco_louna_task.Domain.Identity.{is_version_4}
use mco_louna_task.Consumer.Process.{handle_new_payment, handle_payment_processing}
use mco_louna_task.Serial.Roundtrip.{parse_currency-currency_value}
use mco_louna_task.Values.{Fields, Text, Value, uuid_version, TaskStatus, Uuid}
use mco_louna_task.UseCase.Process.Plan.{
  chosen_status, settled_payment, chosen_reason, settled_event_row, settle, settled_db,
  settled_delivery, settled_event,
}
use mco_louna_task.UseCase.Create.Plan.{
  event_row, created_db, planned_payment, created_delivery, planned_event,
}
use mco_louna_task.UseCase.Create.{CreatePaymentCommand}
use mco_louna_task.Storage.Payments.{insert_payment, has_id, row_of, violates, to_domain}
use mco_louna_task.Storage.Outbox.{
  set_status, update_events, has_event_id, insert_all, insert_event, insert_rows, is_pending_task,
}
use mco_louna_task.Serial.Rebuild.{Readers, decode_new_payment, decode_notify}
use mco_louna_task.Exec.{Database, Delivery, OutboxRow, PaymentRow, World}
use mco_louna_task.Errors.{ok}
use mco_louna_task.Consumer.Message.{Message}
use mco_louna_task.Base.{
  List, sym, update_where, ◌≢◌, find-append_none, subst, ◌∙◌, find, some, ◌++◌, ◌+◌, Bool-cases,
  any-append, ap, arith, inl, inr, [], any, false, refl, true, ◌&&◌, ◌∷◌, ◌≡◌,
}

-- a delivery as the message that a consumer gets
abbrev pub message_of : Delivery → Message
message_of d = record { body = d.body; attempt = d.attempt }

decode_created :
    (r : Readers) (c : CreatePaymentCommand) (w : World)
    → decode_new_payment r (created_delivery c w).body ≡ ok (planned_event c w)
unfolding decode_new_payment
decode_created r c w = refl

pub decode_settled :
    (r : Readers) (row : PaymentRow) (v : World)
    → decode_notify r (settled_delivery row v).body ≡ ok (settled_event row v)
unfolding decode_notify to_domain
decode_settled r row v = elim (Bool-cases (v.env.success v.tick)) [
  | inl won ↦ rw (won, parse_currency-currency_value)
  | inr lost ↦ rw (lost, parse_currency-currency_value)
]

claimable_new :
    (u : Uuid) (e : OutboxRow) (d : Database)
    → e.id ≡ u
    → e.status ≡ TaskStatus.pending
    → any (has_event_id u) d.outbox ≡ false
    → any (λ row. has_event_id u row && is_pending_task row) (insert_rows (e ∷ []) d).outbox ≡ true
unfolding insert_all insert_event
claimable_new u e d same fresh new = ground (
  arith,
  any-append (λ row. has_event_id u row && is_pending_task row) d.outbox (e ∷ []),
  ap (λ v. any (has_event_id v) d.outbox) same,
)

-- the committed row of a created payment, and the identifiers of its event and of the result's
abbrev pub created_row : CreatePaymentCommand → World → PaymentRow
created_row c w = row_of (planned_payment c w)

abbrev pub created_id : CreatePaymentCommand → World → Uuid
created_id c w = (planned_event c w).id

abbrev pub result_world : World → World
result_world v = after_read (claimed_world v)

abbrev pub result_id : PaymentRow → World → Uuid
result_id row v = (settled_event row (result_world v)).id

-- the committed state after the two consumers
abbrev pub processed_db : CreatePaymentCommand → World → World → Database
processed_db c w v =
    update_events (created_id c w) (set_status TaskStatus.confirmed)
      (settled_db (created_row c w) (result_world v) (created_db c w))

pub processes_created :
    (c : CreatePaymentCommand) (w v : World)
    → violates (created_row c w) w.db ≡ false
    → is_version_4 (uuid_version (created_row c w).id) ≡ true
    → any (has_event_id (created_id c w)) w.db.outbox ≡ false
    → IsCalm v.env
    → v.db ≡ created_db c w
    → let (r, v') = handle_payment_processing (message_of (created_delivery c w)) v in
      (r ≡ ok tt)
      × (v'.acks ≡ v.acks + 1)
      × (find (has_id (created_row c w).id) v'.db.payments
          ≡ some (settle (result_world v) (created_row c w)))
      × (v'.db ≡ processed_db c w v)
      × (v'.sent ≡ v.sent ++ settled_delivery (created_row c w) (result_world v) ∷ [])
unfolding handle_payment_processing
processes_created c w v free v4 new calm same =
    let row = created_row c w in
    let known : find (has_id row.id) v.db.payments ≡ some row =
      rw same
        (find-append_none (has_id row.id) w.db.payments (row ∷ []) (ground arith) ∙ ground arith) in
    let claimable : IsClaimable (created_id c w) v = rw same (
      claimable_new (created_id c w) (event_row (planned_event c w) (planned_payment c w)) w.db refl
        refl new) in
    rw (decode_created v.env.readers c w) (
      subst
        (λ d.
          let (r, v') =
            handle_new_payment (message_of (created_delivery c w)) (planned_event c w) v in
          (r ≡ ok tt)
          × (v'.acks ≡ v.acks + 1)
          × (find (has_id row.id) v'.db.payments ≡ some (settle (result_world v) row))
          × (v'.db
              ≡ update_events (created_id c w) (set_status TaskStatus.confirmed)
                  (settled_db row (result_world v) d))
          × (v'.sent ≡ v.sent ++ settled_delivery row (result_world v) ∷ []))
        same
        (handle_new_payment-settles (message_of (created_delivery c w)) row.id (planned_event c w) v
          row refl v4 calm known refl claimable))

claimable_after :
    (u v : Uuid) (f : OutboxRow → OutboxRow) (rows : List OutboxRow)
    → ((r : OutboxRow) → (f r).id ≡ r.id)
    → u ≢ v
    → any (λ row. has_event_id u row && is_pending_task row) (update_where (has_event_id v) f rows)
      ≡ any (λ row. has_event_id u row && is_pending_task row) rows
claimable_after u v f [] keep ne = refl
claimable_after u v f (r ∷ rows) keep ne =
    ground (arith, keep r, claimable_after u v f rows keep ne)

unknown_after :
    (u : Uuid) (e : OutboxRow) (d : Database)
    → e.id ≢ u
    → any (has_event_id u) d.outbox ≡ false
    → any (has_event_id u) (insert_rows (e ∷ []) d).outbox ≡ false
unfolding insert_all insert_event
unknown_after u e d ne new = ground (arith, any-append (has_event_id u) d.outbox (e ∷ []))

pub result-IsClaimable :
    (c : CreatePaymentCommand) (w v z : World)
    → any (has_event_id (result_id (created_row c w) v)) w.db.outbox ≡ false
    → created_id c w ≢ result_id (created_row c w) v
    → z.db ≡ processed_db c w v
    → IsClaimable (result_id (created_row c w) v) z
result-IsClaimable c w v z new ne same =
    let row = created_row c w in
    let u = result_id row v in
    rw same (
      claimable_after u (created_id c w) (set_status TaskStatus.confirmed)
        (settled_db row (result_world v) (created_db c w)).outbox (λ r. refl) (λ e. ne (sym e))
      ∙ claimable_new u (settled_event_row row (result_world v)) (created_db c w) refl refl (
          unknown_after u (event_row (planned_event c w) (planned_payment c w))
            (insert_payment row w.db) ne new))

-- what the client is told of a result
abbrev pub result_payload : PaymentRow → World → Fields
result_payload row v =
    expected_payload (chosen_status (v.env.success v.tick)) (chosen_reason (v.env.success v.tick))
      (settled_payment row v)

pub notifies_result :
    (to_str : Value → Text) (row : PaymentRow) (v z : World)
    → IsCalm z.env
    → IsAnswered z.env
    → is_http row.webhook_url ≡ true
    → IsClaimable (settled_event row v).id z
    → let (r, z') = handle_notify_client to_str (message_of (settled_delivery row v)) z in
      (r ≡ ok tt)
      × (z'.acks ≡ z.acks + 1)
      × (z'.posts ≡ z.posts ++ post_of row.webhook_url (result_payload row v) 5 ∷ [])
      × (z'.db ≡ update_events (settled_event row v).id (set_status TaskStatus.confirmed) z.db)
unfolding handle_notify_client to_domain
notifies_result to_str row v z calm answered valid claimable =
    rw (decode_settled z.env.readers row v) (
      let told =
        handle_processed-tells to_str (message_of (settled_delivery row v)) (settled_event row v).id
          (v.env.clock (v.tick + 1 + 1 + 1)) (chosen_reason (v.env.success v.tick))
          (settled_payment row v) z calm answered valid claimable in
      (told.0, told.1, told.2, told.3))
