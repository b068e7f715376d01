-- ===== src/Domain/Repository.antt =====
-- `PaymentRepository` (payments/domain/repository.py): the interface that PaymentService gets, and
-- the part of its contract that makes keys unique.
use mco_louna_task.Values.{Uuid}
use mco_louna_task.Errors.{DomainClass, Error, domain_error, err, ok}
use mco_louna_task.Domain.Payment.{Payment}
use mco_louna_task.Base.{Bool, Option, false, true, ◌≡◌}
use mco_louna_task.Exec.{Action, Database, World}

pub record PaymentRepository : Type 0 where
  pub add : Payment → Action (Unit {0})
  pub get_by_id : Uuid → Action Payment
  pub get_by_key : Uuid → Action (Option Payment)
  pub update : Payment → Action (Unit {0})

-- `DomainResourceExistsError`
abbrev pub is_exists : Error → Bool
is_exists (domain_error d) = elim d.cls [ DomainClass.exists ↦ true | _ ↦ false ]
is_exists _ = false

-- `has d k` tells that `d` stores a payment with the key `k`. A lookup changes nothing; `add` raises
-- for a key that is stored, and changes nothing then; if it returns, it has stored the key.
pub record KeyContract (repo : PaymentRepository) : Type 0 where
  pub has : Database → Uuid → Bool
  pub lookup_tx : (k : Uuid) (w : World) → (repo.get_by_key k w).1.tx ≡ w.tx
  pub add_known :
      (p : Payment) (w : World)
      → has w.tx p.key.value ≡ true
      → (e : Error) × (repo.add p w ≡ (err e, w)) × (is_exists e ≡ true)
  pub add_stores :
      (p : Payment) (w : World)
      → (repo.add p w).0 ≡ ok tt
      → has (repo.add p w).1.tx p.key.value ≡ true
