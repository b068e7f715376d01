-- ===== src/System/Idempotency.antt =====
-- What `create_payment` refuses: a key that the database knows, and an amount that is too large.
use mco_louna_task.Storage.Numeric.{fits_column, stored_amount}
use mco_louna_task.UseCase.Create.Plan.{planned_payment}
use mco_louna_task.UseCase.Create.Outcome.{HasRoom, create_payment-Outcome}
use mco_louna_task.UseCase.Create.{CreatePaymentCommand, CreatePaymentResponse, create_payment}
use mco_louna_task.System.Invariant.{same_key}
use mco_louna_task.Storage.Payments.{has_key, row_of, violates}
use mco_louna_task.Exec.{PaymentRow, World}
use mco_louna_task.Errors.{Result, err, ok, publisher_unavailable}
use mco_louna_task.Base.{
  ◌⊎◌, false, ==_refl, Bool, List, [], any, arith, inl, inr, subst, true, ◌++◌, ◌∷◌, ◌≡◌, ◌≢◌,
}
use mco_louna_task.UseCase.Create.Outcome as CreateOutcome

-- the outcome of a request that stored nothing
abbrev pub IsRefused : World → Result CreatePaymentResponse × World → Type 0
IsRefused w (ok _, w') = ⊥
IsRefused w (err x, w') = (x ≢ publisher_unavailable) × (w'.db ≡ w.db) × (w'.sent ≡ w.sent)

key_known :
    (c : CreatePaymentCommand) (w : World)
    → any (has_key c.key) w.db.payments ≡ true
    → violates (row_of (planned_payment c w)) w.db ≡ true
key_known c w h = ground arith

IsRefused-of_Outcome :
    (c : CreatePaymentCommand) (w : World) (x : Result CreatePaymentResponse × World)
    → ¬ HasRoom (planned_payment c w) w.db
    → CreateOutcome.Outcome c w x
    → IsRefused w x
IsRefused-of_Outcome c w (ok reply, w') full (_, (free, _), _) = full free
IsRefused-of_Outcome c w (err x, w') full (sent, inl (_, (free, _))) = absurd (full free)
IsRefused-of_Outcome c w (err x, w') full (sent, inr (other, same)) = (other, same, sent)

create_payment_duplicate :
    (c : CreatePaymentCommand) (w : World)
    → any (has_key c.key) w.db.payments ≡ true
    → IsRefused w (create_payment c w)
create_payment_duplicate c w h =
    IsRefused-of_Outcome c w (create_payment c w) (λ room. ground (arith, key_known c w h, room.0))
      (create_payment-Outcome c w)

-- A request raises, whatever the locks, the clocks and the outcomes of the world, if a committed
-- payment has its idempotency key, or if its amount, valid or not, needs more than the 18 digits of
-- the column. It commits nothing and sends nothing.
pub create_payment-IsRefused :
    (c : CreatePaymentCommand) (w : World)
    → (any (has_key c.key) w.db.payments ≡ true) ⊎ (fits_column (stored_amount c.amount) ≡ false)
    → IsRefused w (create_payment c w)
create_payment-IsRefused c w (inl h) = create_payment_duplicate c w h
create_payment-IsRefused c w (inr h) =
    IsRefused-of_Outcome c w (create_payment c w) (λ room. ground (arith, h, room.1))
      (create_payment-Outcome c w)

any_last :
    (p : PaymentRow → Bool) (rows : List PaymentRow) (row : PaymentRow)
    → p row ≡ true
    → any p (rows ++ row ∷ []) ≡ true
any_last p [] row h = ground arith
any_last p (r ∷ rows) row h = ground (arith, any_last p rows row h)

key_stored :
    (c : CreatePaymentCommand) (w : World) (reply : CreatePaymentResponse) (w' : World)
    → CreateOutcome.Outcome c w (ok reply, w')
    → any (has_key c.key) w'.db.payments ≡ true
key_stored c w reply w' (_, (_, made), _) =
    rw made (any_last (has_key c.key) w.db.payments (row_of (planned_payment c w)) (==_refl c.key))

-- After a request that returned, a second request with the same key is refused: it raises, commits
-- nothing and sends nothing, whatever else it asks for and whatever its world answers.
create_payment_twice :
    (c again : CreatePaymentCommand) (w v : World) (reply : CreatePaymentResponse)
    → (create_payment c w).0 ≡ ok reply
    → again.key ≡ c.key
    → v.db ≡ (create_payment c w).1.db
    → IsRefused v (create_payment again v)
create_payment_twice c again w v reply returned same_key same_db =
    create_payment_duplicate again v (
      rw (same_key, same_db)
        (key_stored c w reply (create_payment c w).1 (
          subst (λ r. CreateOutcome.Outcome c w (r, (create_payment c w).1)) returned
            (create_payment-Outcome c w))))
