-- ===== src/Domain/Identity.antt =====
-- `PaymentID` and `IdempotencyKey` (payments/domain/value_objects/id.py and key.py). Only the
-- first tests the type: reading `version` of another value raises `AttributeError`.
use mco_louna_task.Base.{ℕ, Bool, false, not, Option, none, some, ◌==◌}
use mco_louna_task.Values.{Uuid, Value, uuid, uuid_version}
use mco_louna_task.Errors.{
  Result, ok, err, ◌>>=◌, ◌>>◌, raise_if, simple_error, wrong_type, attribute_error,
}
use mco_louna_task.Domain.ValueObject.{ValueObject, base_post_init}

-- `isinstance(self.id, UUID)`
unfoldable pub require_uuid : Value → Result Uuid
require_uuid (uuid u) = ok u
require_uuid _ = err (simple_error wrong_type "PaymentID must be UUID(v4)")

-- the UUID whose `version` is read
unfoldable pub versioned : Value → Result Uuid
versioned (uuid u) = ok u
versioned _ = err attribute_error

-- `self.value.version != 4`
abbrev pub is_version_4 : Option ℕ → Bool
is_version_4 none = false
is_version_4 (some v) = v == 4

unfoldable pub create_payment_id : Bool → Value → Result (ValueObject Uuid)
unfolding require_uuid
create_payment_id dev value = do
  base_post_init dev "PaymentID.id" value
  u ← require_uuid value
  raise_if (not (is_version_4 (uuid_version u)))
      (simple_error wrong_type "PaymentID must be UUID v4")
  ok (record { value = u; rebuilding = false })

unfoldable pub create_idempotency_key : Bool → Value → Result (ValueObject Uuid)
unfolding versioned
create_idempotency_key dev value = do
  base_post_init dev "IdempotencyKey.key" value
  u ← versioned value
  raise_if (not (is_version_4 (uuid_version u)))
      (simple_error wrong_type "IdempotencyKey must be UUID v4")
  ok (record { value = u; rebuilding = false })
