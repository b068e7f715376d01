-- ===== src/System/Relay.antt =====
-- What the poll sends when the broker takes messages: the outbox delivers what a transaction
-- committed, also if its own publication failed.
use mco_louna_task.System.Delivery.{fetch_pending_tasks-db}
use mco_louna_task.Storage.Selection.{pending_rows-All}
use mco_louna_task.UseCase.Query.{fetch_pending_tasks, publish_pendings}
use mco_louna_task.System.Served.{Served, Served-Changes, empty_db}
use mco_louna_task.Consumer.Poll.{handle_bad_events}
use mco_louna_task.Consumer.Message.{connect}
use mco_louna_task.Values.{Text, Value}
use mco_louna_task.Serial.Event.{parse_event_to_message}
use mco_louna_task.System.Mail.{Changes-IsMailable, IsMailable, mail, mailable-IsSent}
use mco_louna_task.Storage.Outbox.{get_pendings, pending_rows, rebuild_row, rebuild_rows}
use mco_louna_task.Exec.{
  ◌>>◌, Action, draw, lift, ◌>>=◌, CallOutcome, Delivery, Env, OutboxRow, World,
}
use mco_louna_task.Errors.{broker_error, raise_if, Result, bind, err, ok}
use mco_louna_task.Domain.Event.{class_of, Event}
use mco_louna_task.Broker.Routes.{Exchange, Queue, exchange_registry, queue_registry}
use mco_louna_task.Broker.Bus.{
  delivery, map_parse_error, or_routing_error, publish_payment_events, finish_call, publish_event,
}
use mco_louna_task.Base.{
  not, ap, append_assoc, append_nil, subst, sym, ◌+◌, ◌∙◌, arith, All, List, [], all, map, refl,
  true, ℕ, ◌++◌, ◌∷◌, ◌≡◌,
}
use mco_louna_task.Broker.Order.{deliveries, delivery_of}

rebuilt :
    (rows : List OutboxRow)
    → All IsMailable rows
    → (es : List Event) × (rebuild_rows rows ≡ ok es) × (deliveries es ≡ ok (map mail rows))
unfolding rebuild_rows
rebuilt [] h = ([], refl, refl)
rebuilt (r ∷ rows) (h, hs) = rebuilt_cons (rebuild_row r) (mailable-IsSent r h) (rebuilt rows hs)
  where
    rebuilt_cons :
        (x : Result Event)
        → bind x delivery_of ≡ ok (mail r)
        → ((es : List Event) × (rebuild_rows rows ≡ ok es) × (deliveries es ≡ ok (map mail rows)))
        → (es : List Event) × (bind x (λ e. bind (rebuild_rows rows) (λ es. ok (e ∷ es))) ≡ ok es)
          × (deliveries es ≡ ok (mail r ∷ map mail rows))
    rebuilt_cons (ok e) one (es, all, sends) = (e ∷ es, rw all refl, rw (one, sends) refl)
    rebuilt_cons (err x) one rest = absurd (cc one)

-- every call of the broker goes through
abbrev pub IsUp : Env → Type 0
IsUp env = ((n : ℕ) → env.call n ≡ CallOutcome.published) × ((n : ℕ) → env.broker_publish n ≡ true)

abbrev AllSent : List Delivery → World → Result (Unit {0}) × World → Type 0
AllSent ds w x = (x.0 ≡ ok tt) × (x.1.sent ≡ w.sent ++ ds) × (x.1.env ≡ w.env)

round_sent :
    (qr : Result Queue) (er : Result Exchange) (mr : Result Value) (d : Delivery) (w : World)
    → IsUp w.env
    → bind qr (λ q. bind er (λ exch. bind mr (λ message. ok (delivery q exch message)))) ≡ ok d
    → AllSent (d ∷ []) w (
        (lift qr >>= λ q. lift er >>= λ exch.
        lift mr >>= λ message. draw (λ e. e.call) >>= finish_call (delivery q exch message))
          w)
unfolding finish_call
round_sent (ok q) (ok exch) (ok message) d w up h = rw (up.0 w.tick) (refl, ground arith, refl)
round_sent (ok q) (ok exch) (err x) d w up h = absurd (cc h)
round_sent (ok q) (err x) mr d w up h = absurd (cc h)
round_sent (err x) er mr d w up h = absurd (cc h)

one_sent :
    (e : Event) (d : Delivery) (w : World)
    → IsUp w.env
    → delivery_of e ≡ ok d
    → AllSent (d ∷ []) w (publish_event e w)
unfolding publish_event
one_sent e d w up h =
    round_sent (or_routing_error (queue_registry (class_of e)))
      (or_routing_error (exchange_registry (class_of e)))
      (map_parse_error (parse_event_to_message e)) d w up h

then_sent :
    (d : Delivery) (ds : List Delivery) (w : World) (k : Action (Unit {0}))
    (x : Result (Unit {0}) × World)
    → AllSent (d ∷ []) w x
    → ((v : World) → v.env ≡ w.env → AllSent ds v (k v))
    → AllSent (d ∷ ds) w (((λ (_ : World). x) >>= λ _. k) w)
then_sent d ds w k (ok _, v) (done', sent, same) rest =
    let (all, sent', same') = rest v same in
    (all, sent' ∙ ap (λ s. s ++ ds) sent ∙ append_assoc w.sent d ds, same' ∙ same)
then_sent d ds w k (err x, v) (fails, sent, same) rest = absurd (cc fails)

split :
    (m : Result Delivery) (n : Result (List Delivery)) (ds : List Delivery)
    → bind m (λ d. bind n (λ rest. ok (d ∷ rest))) ≡ ok ds
    → (d : Delivery) × (rest : List Delivery) × (m ≡ ok d) × (n ≡ ok rest) × (ok (d ∷ rest) ≡ ok ds)
split (ok d) (ok rest) ds h = (d, rest, refl, refl, h)
split (ok d) (err x) ds h = absurd (cc h)
split (err x) n ds h = absurd (cc h)

of_ok : (d : List Delivery) → Result (List Delivery) → List Delivery
of_ok d (ok ds) = ds
of_ok d (err x) = d

all_sent :
    (es : List Event) (ds : List Delivery) (w : World)
    → IsUp w.env
    → deliveries es ≡ ok ds
    → AllSent ds w (publish_payment_events es w)
unfolding publish_payment_events of_ok
all_sent [] ds w up h =
    subst (λ xs. AllSent xs w (ok tt, w)) (ap (of_ok []) h) (refl, append_nil w.sent, refl)
all_sent (e ∷ es) ds w up h =
    let (d, rest, one, more, same) = split (delivery_of e) (deliveries es) ds h in
    subst (λ xs. AllSent xs w (publish_payment_events (e ∷ es) w)) (ap (of_ok []) same)
      (then_sent d rest w (publish_payment_events es) (publish_event e w) (one_sent e d w up one)
        (λ v keep. all_sent es rest v (subst IsUp (sym keep) up) more))

published_rest :
    (es : List Event) (ds : List Delivery) (r : Result (List Event)) (w : World)
    → IsUp w.env
    → r ≡ ok es
    → deliveries es ≡ ok ds
    → AllSent ds w ((lift r >>= publish_payment_events) w)
published_rest es ds r w up e h = rw e (all_sent es ds w up h)

connected :
    (w : World) (k : Action (Unit {0}))
    → w.env.broker_publish w.tick ≡ true
    → (connect >> k) w ≡ k (record w { tick = w.tick + 1 })
unfolding connect
connected w k up =
    ap
      (λ b.
        ((λ (v : World). (raise_if (not b) broker_error, record v { tick = v.tick + 1 })) >>= λ _.
        k)
          w)
      up

-- When the broker takes every message, a round of the poll in any state that the service reaches
-- from an empty database returns, and has sent the message of each row of its page, in their order.
-- It marks none of them, so the next round sends them again.
pub handle_bad_events-sends :
    (to_str : Value → Text) (w : World)
    → Served to_str empty_db w.db
    → ((n : ℕ) → w.env.call n ≡ CallOutcome.published)
    → ((n : ℕ) → w.env.broker_publish n ≡ true)
    → let rows = pending_rows 50 0 (w.env.locked (w.tick + 1)) w.db.outbox in
      ((handle_bad_events w).0 ≡ ok tt)
      × ((handle_bad_events w).1.sent ≡ w.sent ++ map mail rows)
      × ((handle_bad_events w).1.db ≡ w.db)
unfolding handle_bad_events fetch_pending_tasks publish_pendings get_pendings
handle_bad_events-sends to_str w h called up =
    let rows = pending_rows 50 0 (w.env.locked (w.tick + 1)) w.db.outbox in
    let mailable = Changes-IsMailable empty_db w.db (Served-Changes to_str empty_db w.db h) tt in
    let (es, whole, sends) =
      rebuilt rows
        (pending_rows-All IsMailable 50 0 (w.env.locked (w.tick + 1)) w.db.outbox mailable) in
    rw (connected w fetch_pending_tasks (up w.tick)) (
      let (done', sent, _) =
        published_rest es (map mail rows) (rebuild_rows rows)
          (record w { tx = w.db; tick = w.tick + 1 + 1 }) (called, up) whole sends in
      (done', sent, fetch_pending_tasks-db (record w { tick = w.tick + 1 })))
