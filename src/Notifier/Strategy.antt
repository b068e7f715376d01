-- ===== src/Notifier/Strategy.antt =====
-- The payload strategies (application/strategies/notification_payload.py). `to_str` is Python's
-- `str` on values other than texts, UUIDs and decimals.
use mco_louna_task.Values.{
  Fields, PaymentStatus, Text, Value, currency, currency_value, decimal, decimal_text, end,
  none_value, status, status_value, str, text, uuid, uuid_text,
}
use mco_louna_task.Serial.Event.{entry}
use mco_louna_task.Errors.{Result, attribute_error, err, ok, ◌>>=◌}
use mco_louna_task.Domain.Event.{Processed}
use mco_louna_task.Base.{String, if◌then◌else◌, str_eq}

abbrev pub str_value : (Value → Text) → Value → Text
str_value to_str (text t) = t
str_value to_str (uuid u) = uuid_text u
str_value to_str (decimal d) = decimal_text d
str_value to_str v = to_str v

-- `event.status.value` and `event.currency.value`
abbrev pub status_attribute : Value → Result String
status_attribute (status s) = ok (status_value s)
status_attribute _ = err attribute_error

abbrev pub currency_attribute : Value → Result String
currency_attribute (currency c) = ok (currency_value c)
currency_attribute _ = err attribute_error

-- `event.reason or self.default_reason`
abbrev pub reason_or : String → Value → Value
reason_or default none_value = text (str default)
reason_or default (text (str s)) = text (str (if str_eq s "" then default else s))
reason_or default v = v

pub data Strategy : Type 0 where
  confirmed_payload : Strategy
  failure_payload : String → Strategy

-- `PayloadStrategyFactory.get_strategy`
unfoldable pub get_strategy : Value → Strategy
get_strategy (status PaymentStatus.confirmed) = confirmed_payload
get_strategy (status PaymentStatus.pending) = failure_payload "Internal error"
get_strategy (status PaymentStatus.failed) = failure_payload "Internal error"
get_strategy _ = failure_payload "Internal error"

-- `ConfirmedPayloadStrategy.build` and `FailurePayloadStrategy.build`
unfoldable pub build : (Value → Text) → Strategy → Value → Processed → Result Fields
build to_str confirmed_payload payment_id event = do
  st ← status_attribute event.status
  cur ← currency_attribute event.currency
  ok (
      entry "payment_id" (text (str_value to_str payment_id)) (
        entry "status" (text (str st)) (
          entry "amount" (text (str_value to_str event.amount))
            (entry "currency" (text (str cur)) end))))
build to_str (failure_payload default_reason) payment_id event = do
  st ← status_attribute event.status
  ok (
      entry "payment_id" (text (str_value to_str payment_id)) (
        entry "status" (text (str st))
          (entry "reason" (reason_or default_reason event.reason) end)))
