-- ===== src/Domain/Amount.antt =====
-- `Amount` (payments/domain/value_objects/amount.py). Comparing a NaN raises
-- `decimal.InvalidOperation`, and `int` of the exponent of an infinity raises `ValueError`.
use mco_louna_task.Base.{Bool, false, ◌||◌, ◌==◌, ltb}
use mco_louna_task.Values.{ℤ, pos, negsuc, Decimal, finite, infinity, nan, Value, decimal}
use mco_louna_task.Errors.{
  Result, ok, err, ◌>>=◌, ◌>>◌, raise_if, simple_error, validation, wrong_type, value_error,
  invalid_operation,
}
use mco_louna_task.Domain.ValueObject.{ValueObject, base_post_init}

-- `isinstance(self.value, Decimal)`
unfoldable pub require_decimal : Value → Result Decimal
require_decimal (decimal d) = ok d
require_decimal _ = err (simple_error wrong_type "Amount must be a Decimal")

-- `value <= Decimal("0")`
unfoldable pub le_zero : Decimal → Result Bool
le_zero (finite negative coefficient exponent) = ok (negative || coefficient == 0)
le_zero (infinity negative) = ok negative
le_zero nan = err invalid_operation

-- `int(value.as_tuple().exponent)`
unfoldable pub int_exponent : Decimal → Result ℤ
int_exponent (finite negative coefficient exponent) = ok exponent
int_exponent (infinity negative) = err value_error
int_exponent nan = err value_error

-- `exponent < -2`
unfoldable pub lt_minus_two : ℤ → Bool
lt_minus_two (pos n) = false
lt_minus_two (negsuc n) = ltb 1 n

unfoldable pub create_amount : Bool → Value → Result (ValueObject Decimal)
unfolding require_decimal le_zero int_exponent lt_minus_two
create_amount dev value = do
  base_post_init dev "Amount.amount" value
  d ← require_decimal value
  low ← le_zero d
  raise_if low (simple_error validation "Amount must be greater than zero")
  exponent ← int_exponent d
  raise_if (lt_minus_two exponent)
      (simple_error validation "Amount cannot have more than 2 decimal places")
  ok (record { value = d; rebuilding = false })
