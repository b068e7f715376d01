-- ===== src/Notifier/Payload.antt =====
-- What the notifier sends for the event of a settled payment.
use mco_louna_task.Interfaces.{WebhookSender}
use mco_louna_task.Exec.{World}
use mco_louna_task.Values.{
  bool_value, cat, currency, datetime, decimal, dict, float, special_float, instance_of, int,
  iso_text, list, mapping_proxy, none_value, num_text, opaque, status, tuple, uuid, Fields,
  PaymentStatus, Text, Uuid, Value, currency_value, decimal_text, end, status_value, str, text,
  uuid_text,
}
use mco_louna_task.Serial.Event.{entry}
use mco_louna_task.Notifier.Strategy.{build, get_strategy, reason_or}
use mco_louna_task.Notifier.Sender.{
  httpx_sender, send_notification_with, send_notification, send_webhook,
}
use mco_louna_task.Domain.Payment.{Payment, processed_event}
use mco_louna_task.Base.{
  Bool, String, false, if◌then◌else◌, str_eq, true, arith, none, refl, ℕ, ◌≡◌,
}

-- The reason in a payload: "Internal error" for `None` and for the empty text, any other as it is.
abbrev expected_reason : Value → Value
expected_reason none_value = text (str "Internal error")
expected_reason (text (str s)) = elim (str_eq s "") [
  | true ↦ text (str "Internal error")
  | false ↦ text (str s)
]
expected_reason reason = reason

same_text :
    (s : String) (b : Bool)
    → text (str (if b then "Internal error" else s))
      ≡ elim b [ true ↦ text (str "Internal error") | false ↦ text (str s) ]
same_text s true = refl
same_text s false = refl

reason_or-expected : (reason : Value) → reason_or "Internal error" reason ≡ expected_reason reason
reason_or-expected none_value = refl
reason_or-expected (text (str s)) = same_text s (str_eq s "")
reason_or-expected (text (uuid_text u)) = refl
reason_or-expected (text (decimal_text d)) = refl
reason_or-expected (text (iso_text d)) = refl
reason_or-expected (text (num_text n)) = refl
reason_or-expected (text (cat t r)) = refl
reason_or-expected (bool_value b) = refl
reason_or-expected (int n) = refl
reason_or-expected (float x) = refl
reason_or-expected (special_float x) = refl
reason_or-expected (decimal d) = refl
reason_or-expected (uuid u) = refl
reason_or-expected (datetime d) = refl
reason_or-expected (currency c) = refl
reason_or-expected (status s) = refl
reason_or-expected (dict fs) = refl
reason_or-expected (list vs) = refl
reason_or-expected (tuple vs) = refl
reason_or-expected (mapping_proxy fs) = refl
reason_or-expected (instance_of fs) = refl
reason_or-expected (opaque n) = refl

-- The payload of a payment with the status.
abbrev pub expected_payload : PaymentStatus → Value → Payment → Fields
expected_payload PaymentStatus.confirmed reason p =
    entry "payment_id" (text (uuid_text p.id.value)) (
      entry "status" (text (str "CONFIRMED")) (
        entry "amount" (text (decimal_text p.amount.value))
          (entry "currency" (text (str (currency_value p.currency))) end)))
expected_payload s reason p =
    entry "payment_id" (text (uuid_text p.id.value))
      (entry "status" (text (str (status_value s))) (entry "reason" (expected_reason reason) end))

sends_payload :
    (sender : WebhookSender) (to_str : Value → Text) (id : Uuid) (at : ℕ) (reason : Value)
    (p : Payment) (s : PaymentStatus) (w : World)
    → p.status ≡ s
    → send_notification_with sender to_str (processed_event id at reason p) none w
      ≡ sender.send p.webhook_url.value (expected_payload s reason p) 5 w
unfolding build get_strategy
sends_payload sender to_str id at reason p PaymentStatus.pending w h =
    ground (arith, h, reason_or-expected reason)
sends_payload sender to_str id at reason p PaymentStatus.confirmed w h = ground (arith, h)
sends_payload sender to_str id at reason p PaymentStatus.failed w h =
    ground (arith, h, reason_or-expected reason)

-- For the event of a payment the notifier calls its sender once, whatever the sender does, with the
-- webhook of the payment, the default timeout of 5 seconds, and a payload with the identifier and
-- the status; that of a confirmed payment has the amount and the currency, any other the reason, or
-- "Internal error" in place of a missing or an empty one.
pub send_notification_with-send :
    (sender : WebhookSender) (to_str : Value → Text) (id : Uuid) (at : ℕ) (reason : Value)
    (p : Payment) (w : World)
    → send_notification_with sender to_str (processed_event id at reason p) none w
      ≡ sender.send p.webhook_url.value (expected_payload p.status reason p) 5 w
send_notification_with-send sender to_str id at reason p w =
    sends_payload sender to_str id at reason p p.status w refl

pub send_notification-send_webhook :
    (to_str : Value → Text) (id : Uuid) (at : ℕ) (reason : Value) (p : Payment) (w : World)
    → send_notification to_str (processed_event id at reason p) none w
      ≡ send_webhook p.webhook_url.value (expected_payload p.status reason p) 5 w
unfolding send_notification
send_notification-send_webhook = send_notification_with-send httpx_sender
