-- ===== src/System/Lookup.antt =====
-- What `GetPayment` answers after a creation.
use mco_louna_task.Serial.Value.{json_fields}
use mco_louna_task.Storage.Numeric.{stored_amount}
use mco_louna_task.Domain.Laws.{create_id-ok}
use mco_louna_task.Values.{
  Fields, end, field, text, PaymentStatus, Text, Uuid, Value, cat, str, uuid_text, uuid_version,
}
use mco_louna_task.UseCase.Query.{GetPaymentQueryResponse, get_payment, query_response, stringify}
use mco_louna_task.UseCase.Create.Plan.{planned_payment}
use mco_louna_task.UseCase.Create.Outcome.{Creates, create_payment-Outcome}
use mco_louna_task.UseCase.Create.{CreatePaymentCommand, CreatePaymentResponse, create_payment}
use mco_louna_task.Storage.Payments.{get_by_id, has_id, row_of, to_domain, visible}
use mco_louna_task.Exec.{PaymentRow, World}
use mco_louna_task.Errors.{DomainClass, err, ok, raise_domain}
use mco_louna_task.Domain.Identity.{is_version_4}
use mco_louna_task.Base.{
  Bool, List, [], any, arith, false, find, none, refl, some, subst, true, ◌++◌, ◌+◌, ◌∷◌, ◌≡◌,
}
use mco_louna_task.UseCase.Create.Outcome as CreateOutcome

-- The same keys in the same order, and for each value its `str`.
abbrev AreStrings : (Value → Text) → Fields → Fields → Type 0
AreStrings to_str end end = Unit
AreStrings to_str (field k v fs) (field l u gs) =
    (l ≡ k) × (u ≡ text (to_str v)) × AreStrings to_str fs gs
AreStrings to_str end (field l u gs) = ⊥
AreStrings to_str (field k v fs) end = ⊥

stringify-AreStrings :
    (to_str : Value → Text) (fs : Fields) → AreStrings to_str fs (stringify to_str fs)
unfolding stringify
stringify-AreStrings to_str end = tt
stringify-AreStrings to_str (field k v fs) = (refl, refl, stringify-AreStrings to_str fs)

-- What the answer to a query says of a command that was carried out.
abbrev pub Describes :
    (Value → Text) → CreatePaymentCommand → World → GetPaymentQueryResponse → Type 0
Describes to_str c w r =
    (r.payment_id ≡ w.env.uuid4 (w.tick + 1))
    × (r.amount ≡ stored_amount c.amount)
    × (r.currency ≡ c.currency)
    × (r.description ≡ c.description)
    × (r.key ≡ c.key)
    × ((fs : Fields) × (json_fields c.metadata ≡ ok fs) × AreStrings to_str fs r.metadata)
    × (r.status ≡ PaymentStatus.pending)
    × (r.processed_at ≡ none)

find_last :
    (u : Uuid) (locked : Uuid → Bool) (rows : List PaymentRow) (row : PaymentRow)
    → any (has_id u) rows ≡ false
    → row.id ≡ u
    → locked u ≡ false
    → find (visible locked (has_id u)) (rows ++ row ∷ []) ≡ some row
find_last u locked [] row h same free = ground arith
find_last u locked (r ∷ rows) row h same free = ground (arith, find_last u locked rows row)

answer_of_row :
    (to_str : Value → Text) (u : Uuid) (v : World) (row : PaymentRow)
    → is_version_4 (uuid_version u) ≡ true
    → find (visible (v.env.locked v.tick) (has_id u)) v.db.payments ≡ some row
    → (get_payment to_str u v).0 ≡ ok (query_response to_str (to_domain row))
unfolding get_payment get_by_id
answer_of_row to_str u v row h found = ground (arith, create_id-ok v.env.dev u h)

-- The payment that a request made is found: if `create_payment` returned, a query for its
-- identifier, on the committed state it left, answers with the fields of the command (the amount
-- with two decimal places, and of the metadata, under its keys, the `str` of each value that JSON
-- carries), pending and not processed. The
-- identifier is a version 4 UUID, and no transaction holds its row.
pub get_payment-create_payment :
    (to_str : Value → Text) (c : CreatePaymentCommand) (w v : World) (reply : CreatePaymentResponse)
    → (create_payment c w).0 ≡ ok reply
    → v.db ≡ (create_payment c w).1.db
    → is_version_4 (uuid_version (w.env.uuid4 (w.tick + 1))) ≡ true
    → v.env.locked v.tick (w.env.uuid4 (w.tick + 1)) ≡ false
    → (r : GetPaymentQueryResponse) × ((get_payment to_str (w.env.uuid4 (w.tick + 1)) v).0 ≡ ok r)
      × Describes to_str c w r
unfolding query_response to_domain
get_payment-create_payment to_str c w v reply returned same_db version free = (
  query_response to_str (to_domain row),
  answer_of_row to_str u v row version (
      rw (same_db, created.1)
        (find_last u (v.env.locked v.tick) w.db.payments row (ground (arith, created.0)) refl
          free)),
  (refl, refl, refl, refl, refl, metadata, refl, refl),
)
  where
    u : Uuid
    u = w.env.uuid4 (w.tick + 1)

    row : PaymentRow
    row = row_of (planned_payment c w)

    created : Creates c w (create_payment c w).1.db
    created =
        (subst (λ r. CreateOutcome.Outcome c w (r, (create_payment c w).1)) returned
          (create_payment-Outcome c w)).1

    metadata :
        (fs : Fields) × (json_fields c.metadata ≡ ok fs)
        × AreStrings to_str fs (stringify to_str row.metadata)
    metadata = (row.metadata, created.0.2, stringify-AreStrings to_str row.metadata)

none-visible :
    (u : Uuid) (locked : Uuid → Bool) (rows : List PaymentRow)
    → locked u ≡ true
    → find (visible locked (has_id u)) rows ≡ none
none-visible u locked [] held = refl
none-visible u locked (r ∷ rows) held = ground (arith, none-visible u locked rows held)

-- A query for a row that another transaction holds is answered "Payment not found", as if there
-- were none.
get_payment_locked :
    (to_str : Value → Text) (u : Uuid) (w : World)
    → is_version_4 (uuid_version u) ≡ true
    → w.env.locked w.tick u ≡ true
    → (get_payment to_str u w).0
      ≡ err
          (raise_domain DomainClass.not_found (cat (str "Payment not found: ") (uuid_text u)) none)
unfolding get_payment get_by_id
get_payment_locked to_str u w h held =
    ground
      (arith, create_id-ok w.env.dev u h, none-visible u (w.env.locked w.tick) w.db.payments held)
