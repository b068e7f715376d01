-- ===== src/Domain/Timestamp.antt =====
-- `Timestamp` (payments/domain/value_objects/timestamp.py).
use mco_louna_task.Base.{ℕ, Bool, true, false, not}
use mco_louna_task.Values.{Datetime, Value, datetime}
use mco_louna_task.Errors.{Result, ok, err, ◌>>=◌, ◌>>◌, raise_if, simple_error, wrong_type}
use mco_louna_task.Domain.ValueObject.{ValueObject, base_post_init}

-- `isinstance(self.value, datetime)`
unfoldable pub require_datetime : Value → Result Datetime
require_datetime (datetime d) = ok d
require_datetime _ = err (simple_error wrong_type "Timestamp must be datetime")

unfoldable pub create_timestamp : Bool → Value → Result (ValueObject Datetime)
unfolding require_datetime
create_timestamp dev value = do
  base_post_init dev "Timestamp.timestamp" value
  d ← require_datetime value
  raise_if (not d.aware) (simple_error wrong_type "Timestamp must be timezone-aware")
  ok (record { value = d; rebuilding = false })

-- `datetime.now(timezone.utc)` at an instant of the clock
abbrev pub utc : ℕ → Datetime
utc t = record { instant = t; aware = true }

-- `Timestamp.now`
unfoldable pub now : Bool → ℕ → Result (ValueObject Datetime)
now dev t = create_timestamp dev (datetime (utc t))
