-- ===== src/Domain/Equality.antt =====
-- The equality of payments and of value objects after a round trip through the table.
use mco_louna_task.Storage.Payments.{row_of, to_domain}
use mco_louna_task.Domain.Payment.{Payment, payment_eq}
use mco_louna_task.Base.{==_refl, arith, ◌≡◌}

-- A payment read back from its row equals the original by `Aggregate.__eq__` exactly if the
-- identifier of the original was itself made by a rebuild: the generated equality compares the
-- flag `_rebuilding`.
payment_eq-to_domain : (p : Payment) → payment_eq p (to_domain (row_of p)) ≡ p.id.rebuilding
unfolding payment_eq to_domain
payment_eq-to_domain p = ground (arith, ==_refl p.id.value)
