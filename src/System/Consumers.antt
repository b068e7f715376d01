-- ===== src/System/Consumers.antt =====
-- The two consumers as one: the handler that `serve_one` runs for a delivery.
use mco_louna_task.Values.{Text, Value}
use mco_louna_task.System.Emits.{Emits, handle_notify_client-Emits, handle_payment_processing-Emits}
use mco_louna_task.Exec.{Action, World}
use mco_louna_task.Consumer.Process.{handle_payment_processing}
use mco_louna_task.Consumer.Notify.{handle_notify_client}
use mco_louna_task.Consumer.Message.{Message}
use mco_louna_task.System.AckOnce.{IsAcked, handle_payment_processing-IsAcked}
use mco_louna_task.System.AckNotify.{handle_notify_client-IsAcked}
use mco_louna_task.System.Rules.{Keeps}

pub data Consumer : Type 0 where
  new_payments notifier : Consumer

unfoldable pub consume : (Value → Text) → Consumer → Message → Action (Unit {0})
consume to_str new_payments msg = handle_payment_processing msg
consume to_str notifier msg = handle_notify_client to_str msg

pub consume-Emits :
    (to_str : Value → Text) (c : Consumer) (msg : Message)
    → Keeps (Emits msg) (consume to_str c msg)
unfolding consume
consume-Emits to_str new_payments msg = handle_payment_processing-Emits msg
consume-Emits to_str notifier msg = handle_notify_client-Emits msg to_str

-- Either consumer acknowledges a message exactly once if it returns, and not at all if it raises,
-- whatever the message and the world.
pub consume-IsAcked :
    (to_str : Value → Text) (c : Consumer) (msg : Message) (w : World)
    → IsAcked w (consume to_str c msg w)
unfolding consume
consume-IsAcked to_str new_payments msg w = handle_payment_processing-IsAcked msg w
consume-IsAcked to_str notifier msg w = handle_notify_client-IsAcked to_str msg w
