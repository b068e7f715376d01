-- ===== src/System/Runs.antt =====
-- The two handlers by the rules: what holds of the parts of a handler holds of the handler.
use mco_louna_task.Values.{Fields, TaskStatus, Text, Uuid, Value}
use mco_louna_task.UseCase.Process.{process_payment}
use mco_louna_task.System.Rules.{Keeps, bind-Keeps, catch-Keeps, choose-Keeps, lift-Keeps}
use mco_louna_task.Notifier.Strategy.{build, get_strategy}
use mco_louna_task.Notifier.Sender.{
  call_breaker, is_http, is_transient, map_send_error, processed_body, retry_or_raise,
  send_attempts, send_notification, send_once, send_webhook, send_with_retries, timeout_or_default,
  url_text,
}
use mco_louna_task.Exec.{Action, World, ack, draw, lift, pure, raise, raise_when, ◌>>=◌}
use mco_louna_task.Errors.{Error, Result, webhook_sender_unavailable, webhook_url_invalid}
use mco_louna_task.Domain.Event.{Event, Processed}
use mco_louna_task.Consumer.Process.{
  fail_process, is_business_rule, on_error, on_process_error, process_and_settle, run_process,
}
use mco_louna_task.Consumer.Notify.{fail_notify, notify_and_settle, on_notify_error, run_notify}
use mco_louna_task.Consumer.Message.{claim_event, connect, max_attempts, settle_task}
use mco_louna_task.Base.{Bool, Option, String, false, ltb, none, not, suc, true, zero, ℕ, ◌+◌}

module _ (R : World → World → Type 0) (here : (w : World) → R w w)
    (trans : (u v w : World) → R u v → R v w → R u w) where
  -- The `try` block of the consumer of new payments, and its `except` clauses.
  module _ (event : Event) (attempt : ℕ) (body : Value) (process : Keeps R (process_payment event))
      (settle : Keeps R (settle_task event.id TaskStatus.confirmed)) (connects : Keeps R connect)
      (fails : Keeps R (fail_process (ltb attempt max_attempts) event.id attempt body)) where
    on_process_error-Keeps : Keeps R (on_process_error event.id attempt body)
    unfolding on_process_error
    on_process_error-Keeps =
        bind-Keeps R here trans (λ _. fail_process (ltb attempt max_attempts) event.id attempt body)
          (λ _. fails) connect connects

    pub run_process-Keeps : (go : Bool) → Keeps R (run_process go event attempt body)
    unfolding run_process process_and_settle
    run_process-Keeps false w = here w
    run_process-Keeps true w =
        catch-Keeps R here trans (on_error event.id attempt body)
          (λ e.
            choose-Keeps R (is_business_rule e) (pure tt) (on_process_error event.id attempt body)
              here on_process_error-Keeps)
          (process_and_settle event)
          (bind-Keeps R here trans (λ _. settle_task event.id TaskStatus.confirmed) (λ _. settle)
            (process_payment event) process)
          w

  -- The sender, from one request.
  module _ (tick : (w : World) (n : ℕ) → R w (record w { tick = n }))
      (once : (url : String) (payload : Fields) (timeout : ℕ)
        → Keeps R (send_once url payload timeout)) where
    send_attempts-Keeps :
        (n : ℕ) (url : String) (payload : Fields) (timeout : ℕ)
        → Keeps R (send_attempts n url payload timeout)
    unfolding send_attempts
    send_attempts-Keeps zero url payload timeout w = once url payload timeout w
    send_attempts-Keeps (suc n) url payload timeout w =
        catch-Keeps R here trans (retry_or_raise (send_attempts n url payload timeout))
          (λ e.
            choose-Keeps R (is_transient e) (send_attempts n url payload timeout) (raise e)
              (send_attempts-Keeps n url payload timeout) here)
          (send_once url payload timeout) (once url payload timeout) w

    call_breaker-Keeps :
        (is_open : Bool) (body : Action (Unit {0}))
        → Keeps R body
        → Keeps R (call_breaker is_open body)
    call_breaker-Keeps true body h w = here w
    call_breaker-Keeps false body h w =
        catch-Keeps R here trans map_send_error
          (λ e.
            choose-Keeps R (is_transient e) (raise webhook_sender_unavailable) (raise e) here here)
          body h w

    send_webhook-Keeps :
        (url : String) (payload : Fields) (timeout : ℕ) → Keeps R (send_webhook url payload timeout)
    unfolding send_webhook send_with_retries
    send_webhook-Keeps url payload timeout =
        bind-Keeps R here trans (λ _. draw (λ e. e.breaker_open) >>= called)
          (λ _.
            bind-Keeps R here trans called
              (λ is_open.
                call_breaker-Keeps is_open (send_with_retries url payload timeout)
                  (send_attempts-Keeps 2 url payload timeout))
              (draw (λ e. e.breaker_open)) (λ w. tick w (w.tick + 1)))
          (raise_when (not (is_http url)) webhook_url_invalid) here
      where
        called : Bool → Action (Unit {0})
        called is_open = call_breaker is_open (send_with_retries url payload timeout)

    pub send_notification-Keeps :
        (to_str : Value → Text) (event : Event) (timeout : Option ℕ)
        → Keeps R (send_notification to_str event timeout)
    unfolding send_notification
    send_notification-Keeps to_str event timeout =
        lift-Keeps R here trans with_payload
          (λ p.
            lift-Keeps R here trans (with_url p)
              (λ payload.
                lift-Keeps R here trans (deliver payload)
                  (λ url. send_webhook-Keeps url payload (timeout_or_default timeout))
                  (url_text p.webhook_url))
              (payload_of p))
          (processed_body event.body)
      where
        deliver : Fields → String → Action (Unit {0})
        deliver payload url = send_webhook url payload (timeout_or_default timeout)

        with_url : Processed → Fields → Action (Unit {0})
        with_url p payload = lift (url_text p.webhook_url) >>= deliver payload

        payload_of : Processed → Result Fields
        payload_of p = build to_str (get_strategy p.status) event.payment_id p

        with_payload : Processed → Action (Unit {0})
        with_payload p = lift (payload_of p) >>= with_url p

  -- The `try` block of the notifier, and its `except` clause.
  module _ (to_str : Value → Text) (event : Event) (attempt : ℕ) (body : Value)
      (notifies : Keeps R (send_notification to_str event none))
      (settle : Keeps R (settle_task event.id TaskStatus.confirmed)) (connects : Keeps R connect)
      (fails : Keeps R (fail_notify (ltb attempt max_attempts) event.id attempt body)) where
    on_notify_error-Keeps : (e : Error) → Keeps R (on_notify_error event.id attempt body e)
    unfolding on_notify_error
    on_notify_error-Keeps e =
        bind-Keeps R here trans (λ _. fail_notify (ltb attempt max_attempts) event.id attempt body)
          (λ _. fails) connect connects

    pub run_notify-Keeps : (go : Bool) → Keeps R (run_notify to_str go event attempt body)
    unfolding run_notify notify_and_settle
    run_notify-Keeps false w = here w
    run_notify-Keeps true w =
        catch-Keeps R here trans (on_notify_error event.id attempt body) on_notify_error-Keeps
          (notify_and_settle to_str event)
          (bind-Keeps R here trans (λ _. settle_task event.id TaskStatus.confirmed) (λ _. settle)
            (send_notification to_str event none) notifies)
          w

  -- From the claim to the acknowledgement.
  pub claim_then-Keeps :
      (u : Uuid) (run : Bool → Action (Unit {0}))
      → Keeps R (claim_event u)
      → ((b : Bool) → Keeps R (run b))
      → Keeps R ack
      → Keeps R (claim_event u >>= λ b. run b >>= λ _. ack)
  claim_then-Keeps u run claims runs acks =
      bind-Keeps R here trans (λ b. run b >>= λ _. ack)
        (λ b. bind-Keeps R here trans (λ _. ack) (λ _. acks) (run b) (runs b)) (claim_event u)
        claims
