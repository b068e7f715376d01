-- ===== src/Storage/Numeric.antt =====
-- The column `Numeric(18, 2)` of the amounts (infrastructure/database/payments/table.py): PostgreSQL
-- keeps two decimal places, rounding half away from zero, and refuses what needs more than 18 digits,
-- and the infinities.
use mco_louna_task.Base.{Bool, false, ltb, suc, true, zero, ◌*◌, ◌+◌, ◌/◌, ◌^◌}
use mco_louna_task.Values.{Decimal, finite, infinity, nan, negsuc, pos}

-- the number of hundredths, in a column of two decimal places
unfoldable pub stored_amount : Decimal → Decimal
stored_amount (finite negative coefficient (pos n)) =
    finite negative (coefficient * 10 ^ (n + 2)) (negsuc 1)
stored_amount (finite negative coefficient (negsuc zero)) =
    finite negative (coefficient * 10) (negsuc 1)
stored_amount (finite negative coefficient (negsuc (suc zero))) =
    finite negative coefficient (negsuc 1)
stored_amount (finite negative coefficient (negsuc (suc (suc n)))) =
    finite negative ((coefficient + 5 * 10 ^ n) / 10 ^ (n + 1)) (negsuc 1)
stored_amount d = d

unfoldable pub fits_column : Decimal → Bool
fits_column (finite negative coefficient exponent) = ltb coefficient (10 ^ 18)
fits_column (infinity negative) = false
fits_column nan = true
