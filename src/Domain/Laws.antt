-- ===== src/Domain/Laws.antt =====
-- The life cycle of a payment: what `post_init` and the two transitions do on every branch.
use mco_louna_task.Domain.Identity.{create_payment_id, is_version_4}
use mco_louna_task.Domain.Event.{Event}
use mco_louna_task.Domain.Aggregate.{validate_elements}
use mco_louna_task.Base.{
  List, [], if◌then◌else◌, not, ◌&&◌, ◌∷◌, ℕ, String, Bool, true, false, some, ◌≡◌, ◌≢◌, refl,
  arith,
}
use mco_louna_task.Values.{uuid, uuid_version, Uuid, PaymentStatus, Value, text, str, none_value}
use mco_louna_task.Errors.{ok, err, simple_error, business_rule}
use mco_louna_task.Domain.ValueObject.{base_post_init, ValueObject, rebuild, dataclass_eq}
use mco_louna_task.Domain.Timestamp.{now, utc, create_timestamp}
use mco_louna_task.Domain.Payment.{
  created_event, event_kinds, is_none, is_pending, post_init, Payment, processed_event,
  record_event, mark_as_succeeded, mark_as_failed,
}

pub now-ok : (dev : Bool) (t : ℕ) → now dev t ≡ ok (record { value = utc t; rebuilding = false })
unfolding now create_timestamp mco_louna_task.Domain.ValueObject.base_post_init
now-ok true t = refl
now-ok false t = refl

-- A transition settles a payment at an instant: its status, its timestamp and its one new event.
abbrev pub settled : PaymentStatus → ℕ → Uuid → ℕ → Value → Payment → Payment
settled s at event_id event_at reason p =
    let q = record p {
      status = s;
      processed_at = some (record { value = utc at; rebuilding = false });
    } in
    record_event (processed_event event_id event_at reason q) q

-- A transition succeeds exactly on a pending payment.
pub mark_as_succeeded_lem :
    (dev : Bool) (at : ℕ) (id : Uuid) (event_at : ℕ) (p : Payment)
    → p.status ≡ PaymentStatus.pending
    → mark_as_succeeded dev at id event_at p
      ≡ ok (settled PaymentStatus.confirmed at id event_at none_value p)
unfolding mark_as_succeeded
mark_as_succeeded_lem dev at id event_at p h = ground (arith, now-ok dev at)

pub mark_as_failed_lem :
    (dev : Bool) (at : ℕ) (id : Uuid) (event_at : ℕ) (why : String) (p : Payment)
    → p.status ≡ PaymentStatus.pending
    → mark_as_failed dev at id event_at why p
      ≡ ok (settled PaymentStatus.failed at id event_at (text (str why)) p)
unfolding mark_as_failed
mark_as_failed_lem dev at id event_at why p h = ground (arith, now-ok dev at)

pub mark_as_succeeded_twice :
    (dev : Bool) (at : ℕ) (id : Uuid) (event_at : ℕ) (p : Payment)
    → p.status ≢ PaymentStatus.pending
    → mark_as_succeeded dev at id event_at p ≡ err (simple_error business_rule "Already processed")
unfolding mark_as_succeeded
mark_as_succeeded_twice dev at id event_at p h = ground arith

pub mark_as_failed_twice :
    (dev : Bool) (at : ℕ) (id : Uuid) (event_at : ℕ) (why : String) (p : Payment)
    → p.status ≢ PaymentStatus.pending
    → mark_as_failed dev at id event_at why p ≡ err (simple_error business_rule "Already processed")
unfolding mark_as_failed
mark_as_failed_twice dev at id event_at why p h = ground arith

elements_of_events : (es : List Event) → validate_elements (event_kinds es) ≡ ok tt
unfolding validate_elements
elements_of_events [] = refl
elements_of_events (e ∷ es) = elements_of_events es

-- No payment is refused by the DEV check of the field types, whatever its state and its events: a
-- construction fails only for a settled payment without a processing time, and else records the one
-- event of the creation.
pub post_init_lem :
    (dev : Bool) (id : Uuid) (at : ℕ) (p : Payment)
    → post_init dev id at p ≡ (
        if not (is_pending p.status) && is_none p.processed_at
        then err (
            simple_error business_rule
              "Cannot persist processed payment without processing timestamp")
        else ok (record_event (created_event id at p) p))
unfolding post_init
post_init_lem false id at p = ground arith
post_init_lem true id at p = ground (arith, elements_of_events p.events)

-- A version 4 UUID is accepted as an identifier.
pub create_id-ok :
    (dev : Bool) (u : Uuid)
    → is_version_4 (uuid_version u) ≡ true
    → create_payment_id dev (uuid u) ≡ ok (record { value = u; rebuilding = false })
unfolding create_payment_id base_post_init
create_id-ok dev u h = ground arith
