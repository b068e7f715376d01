-- ===== src/UseCase/Create/Service.antt =====
-- `PaymentService.create` over any repository that keeps the contract of keys, and the repository
-- of the service, which keeps it.
use mco_louna_task.UseCase.Create.Validation.{is_rejection}
use mco_louna_task.UseCase.Create.Plan.{drawn_event, drawn_payment}
use mco_louna_task.UseCase.Create.Outcome.{Drawn, new_payment-Drawn}
use mco_louna_task.Storage.Repository.{sql_payments}
use mco_louna_task.Storage.Payments.{row_of, add_payment, get_by_key, has_key}
use mco_louna_task.Values.{Uuid}
use mco_louna_task.UseCase.Create.{create_with, raise_if_exists, Parts, new_payment}
use mco_louna_task.Exec.{Database, World, pure, ◌>>=◌}
use mco_louna_task.Errors.{DomainClass, simple_error, Result, err, ok}
use mco_louna_task.Domain.Payment.{record_event, Payment}
use mco_louna_task.Base.{
  ◌+◌, [], any-append, ◌∷◌, Option, any, ap, none, refl, some, subst, sym, ◌∙◌, Bool, Bool-cases,
  arith, false, inl, inr, true, ◌≡◌, ◌⊎◌,
}
use mco_louna_task.Domain.Repository.{KeyContract, PaymentRepository}

-- A payment is made only for a key that is not stored, which is stored then; if the key was
-- stored, nothing changes.
abbrev pub Guards : (Database → Uuid → Bool) → Uuid → World → Result Payment × World → Type 0
Guards has k w (ok _, w') = (has w.tx k ≡ false) × (has w'.tx k ≡ true)
Guards has k w (err _, w') = (has w.tx k ≡ false) ⊎ (w'.tx ≡ w.tx)

-- What the service does with the answer of its lookup: for a payment that was found, or an error, it
-- raises at once; else it adds the payment that it draws, and returns it, unless the drawn
-- identifier is rejected or `add` raises.
abbrev pub ByLookup :
    PaymentRepository → Parts → Result (Option Payment) × World → Result Payment × World → Type 0
ByLookup repo parts (ok (some p), v) x =
    x ≡ (err (simple_error DomainClass.exists "Payment already exists"), v)
ByLookup repo parts (err e, v) x = x ≡ (err e, v)
ByLookup repo parts (ok none, v) (ok p, w') =
    (p ≡ record_event (drawn_event parts v) (drawn_payment parts v))
    × (repo.add p (record v { tick = v.tick + 4 }) ≡ (ok tt, w'))
ByLookup repo parts (ok none, v) (err e, w') =
    (is_rejection e ≡ true)
    ⊎ (repo.add (record_event (drawn_event parts v) (drawn_payment parts v))
          (record v { tick = v.tick + 4 })
        ≡ (err e, w'))

module _ (repo : PaymentRepository) (parts : Parts) where
  added-ByLookup :
      (v u : World) (p : Payment) (x : Result (Unit {0}) × World)
      → p ≡ record_event (drawn_event parts v) (drawn_payment parts v)
      → u ≡ record v { tick = v.tick + 4 }
      → repo.add p u ≡ x
      → ByLookup repo parts (ok none, v) (((λ (_ : World). x) >>= λ _. pure p) u)
  added-ByLookup v u p (ok _, w') drawn same h = (drawn, cc (same, h))
  added-ByLookup v u p (err e, w') drawn same h = inr (cc (drawn, same, h))

  Drawn-ByLookup :
      (v : World) (x : Result Payment × World)
      → Drawn parts v x
      → ByLookup repo parts
          (ok none, v)
          (((λ (_ : World). x) >>= λ payment. repo.add payment >>= λ _. pure payment) v)
  Drawn-ByLookup v (ok p, u) (drawn, same) =
      added-ByLookup v u p (repo.add p u) drawn
        (same ∙ ap (λ n. record v { tick = n }) (omega arith)) refl
  Drawn-ByLookup v (err e, u) (rejected, _, _) = inl rejected

  looked_up-ByLookup :
      (x : Result (Option Payment) × World)
      → ByLookup repo parts x (
          ((λ (_ : World). x) >>= λ found. raise_if_exists found >>= λ _.
          new_payment parts >>= λ payment. repo.add payment >>= λ _. pure payment)
            x.1)
  looked_up-ByLookup (ok none, v) =
      Drawn-ByLookup v (new_payment parts v) (new_payment-Drawn parts v)
  looked_up-ByLookup (ok (some p), v) = refl
  looked_up-ByLookup (err e, v) = refl

new_payment-tx : (parts : Parts) (w : World) → (new_payment parts w).1.tx ≡ w.tx
unfolding new_payment
new_payment-tx parts w = ground arith

module _ (repo : PaymentRepository) (contract : KeyContract repo) where
  after_add :
      (k : Uuid) (w v : World) (p : Payment) (x : Result (Unit {0}) × World)
      → contract.has w.tx k ≡ false
      → (x.0 ≡ ok tt → contract.has x.1.tx k ≡ true)
      → Guards contract.has k w (((λ (_ : World). x) >>= λ _. pure p) v)
  after_add k w v p (ok _, w') new stores = (new, stores refl)
  after_add k w v p (err e, w') new stores = inl new

  added-Guards :
      (w v : World) (p : Payment)
      → v.tx ≡ w.tx
      → Guards contract.has p.key.value w ((repo.add p >>= λ _. pure p) v)
  added-Guards w v p same = elim (Bool-cases (contract.has w.tx p.key.value)) [
    | inl known ↦
        let (e, raises, _) =
          contract.add_known p v
            (subst (λ d. contract.has d p.key.value ≡ true) (sym same) known) in
        subst (λ x. Guards contract.has p.key.value w (((λ (_ : World). x) >>= λ _. pure p) v))
          (sym raises) (inr same)
    | inr new ↦ after_add p.key.value w v p (repo.add p v) new (contract.add_stores p v)
  ]

  made-Guards :
      (parts : Parts) (w v : World) (x : Result Payment × World)
      → x.1.tx ≡ w.tx
      → Drawn parts v x
      → Guards contract.has parts.key.value w
          (((λ (_ : World). x) >>= λ payment. repo.add payment >>= λ _. pure payment) v)
  made-Guards parts w v (ok p, w') same (drawn, _) =
      subst (λ (k : Uuid). Guards contract.has k w ((repo.add p >>= λ _. pure p) w'))
        (ap (λ (q : Payment). q.key.value) drawn) (added-Guards w w' p same)
  made-Guards parts w v (err e, w') same drawn = inr same

  looked_up-Guards :
      (parts : Parts) (w : World) (x : Result (Option Payment) × World)
      → x.1.tx ≡ w.tx
      → Guards contract.has parts.key.value w (
          ((λ (_ : World). x) >>= λ found. raise_if_exists found >>= λ _.
          new_payment parts >>= λ payment. repo.add payment >>= λ _. pure payment)
            w)
  looked_up-Guards parts w (ok none, v) same =
      made-Guards parts w v (new_payment parts v) (new_payment-tx parts v ∙ same)
        (new_payment-Drawn parts v)
  looked_up-Guards parts w (ok (some p), v) same = inr same
  looked_up-Guards parts w (err e, v) same = inr same

  -- Over every repository that keeps the contract of keys, the service makes a payment only for a
  -- key that is not stored, which is stored when it returns. It raises for a key that is stored,
  -- and then changes nothing. If its lookup finds a payment, it raises "Payment already exists" with
  -- nothing drawn or added; if the lookup raises, it passes this on; else it draws one payment with
  -- its event and adds it, once, unless the drawn identifier is rejected.
  pub create_with-Guards :
      (parts : Parts) (w : World)
      → Guards contract.has parts.key.value w (create_with repo parts w)
        × ByLookup repo parts (repo.get_by_key parts.key.value w) (create_with repo parts w)
  create_with-Guards parts w = (
    looked_up-Guards parts w (repo.get_by_key parts.key.value w)
        (contract.lookup_tx parts.key.value w),
    looked_up-ByLookup repo parts (repo.get_by_key parts.key.value w),
  )

pub add_payment-stores :
    (p : Payment) (w : World)
    → (add_payment p w).0 ≡ ok tt
    → any (has_key p.key.value) (add_payment p w).1.tx.payments ≡ true
unfolding add_payment
add_payment-stores p w h =
    ground (arith, any-append (has_key p.key.value) w.tx.payments (row_of p ∷ []))

-- The repository of the service keeps the contract, whatever rows other transactions hold.
unfoldable pub sql_contract : KeyContract sql_payments
unfolding get_by_key add_payment
sql_contract = record {
  has = λ d k. any (has_key k) d.payments;
  lookup_tx = λ k w. refl;
  add_known = λ p w h. rw h (_, refl, refl);
  add_stores = add_payment-stores;
}
