-- ===== src/Orders/Processor/Retries.antt =====
-- Retries end: how a message that always fails reaches the dead-letter queue of
-- src/rabbitmq/rabbitmq.topology.ts by way of src/orders/orders-processor.consumer.ts.
use e_commerce_order_platfor.Common.{
  ℕ, zero, suc, ◌+◌, ◌≤◌, ◌<◌, ◌≡◌, refl, sym, ap, map, min, ◌*◌, ◌/◌, ◌^◌, ◌-◌, ◌==◌,
  if◌then◌else◌, or_default, inl, inr, true, false, Option, none, some, Option-cases, List, [], ◌∷◌,
  ◌++◌, Exception, err, arith, ◌∙◌, ltb, last?,
}
use e_commerce_order_platfor.Database.{OrdersProcessMessage, Database, Session}
use e_commerce_order_platfor.Rabbitmq.{
  orders_retry, orders_dlq, Content, OrdersDlqMessage, Queues, content_of, expire_retry,
  back_off_time,
}
use e_commerce_order_platfor.Orders.Processor.{
  ProcessorEnv, Worker, Settlement, acked, requeued, attempt_of, max_of, retry_payload, dlq_payload,
  on_message, process_order,
}
use e_commerce_order_platfor.Orders.Processor.Transaction.{
  processing, processing-cases, process_order_lem,
}

-- The broker's part: a message that was not acknowledged is back in its queue.
abbrev put_back : Content → Option Settlement → Worker → Worker
put_back c (some requeued) w = record w {
  queues = record w.queues { process = c ∷ w.queues.process };
}
put_back c (some acked) w = w
put_back c none w = w

abbrev consume : ProcessorEnv → List Content → Worker → Worker
consume env [] w = w
consume env (c ∷ rest) w =
    let w' = on_message env (some c) (record w { queues = record w.queues { process = rest } }) in
    put_back c (last? w'.settled) w'

-- The oldest retry expires, then the worker takes the next message.
abbrev pub round : ProcessorEnv → Worker → Worker
round env w = let q = expire_retry w.queues in consume env q.process (record w { queues = q })

abbrev pub rounds : ProcessorEnv → ℕ → Worker → Worker
rounds env zero w = w
rounds env (suc n) w = rounds env n (round env w)

abbrev pub Waiting : Content → List OrdersDlqMessage → Worker → Type 0
Waiting c dlq w = expire_retry w.queues ≡ record { process = c ∷ []; retry = []; dlq = dlq }

-- The message as its last attempt has it.
abbrev pub after_attempts : ℕ → OrdersProcessMessage → OrdersProcessMessage
after_attempts zero m = m
after_attempts (suc n) m = record m { attempt = some (attempt_of m + suc n) }

after_attempts-retry :
    (n : ℕ) (m : OrdersProcessMessage)
    → after_attempts n (retry_payload m) ≡ after_attempts (suc n) m
after_attempts-retry zero m = refl
after_attempts-retry (suc n) m =
    let counted : attempt_of m + 1 + suc n ≡ attempt_of m + suc (suc n) = omega arith in
    ap (λ a. record m { attempt = some a }) counted

-- A failing message is not recorded, leaves the tables alone, and fails again with another attempt.
failing :
    (env : ProcessorEnv) (m : OrdersProcessMessage) (s : Session) (e : Exception)
    → (process_order env m s).0 ≡ err e
    → processing env m s.db ≡ (err e, s.db)
failing env m s e fails =
    let ends : (processing env m s.db).0 ≡ err e =
      sym (ap (λ r. r.0) (process_order_lem env m s)) ∙ fails in
    elim (processing-cases env m s.db) [
      | inl (seen, run) ↦ absurd (ground arith)
      | inr (inl (new, run)) ↦ absurd (ground arith)
      | inr (inr (x, new, run)) ↦ ground arith
    ]

processing-retry :
    (env : ProcessorEnv) (m : OrdersProcessMessage) (d : Database)
    → (processing env (retry_payload m) d).0 ≡ (processing env m d).0
processing-retry env m d = ground (arith, Option-cases env.update_fails)

fails_again :
    (env : ProcessorEnv) (m : OrdersProcessMessage) (s s' : Session) (e : Exception)
    → s'.db ≡ s.db
    → (process_order env m s).0 ≡ err e
    → (process_order env (retry_payload m) s').0 ≡ err e
fails_again env m s s' e same fails =
    let ends = failing env m s e fails in
    ap (λ r. r.0) (process_order_lem env (retry_payload m) s')
    ∙ processing-retry env m s'.db
    ∙ ap (λ (d : Database). (processing env m d).0) same
    ∙ ap (λ r. r.0) ends

last-append : (xs : List Settlement) (x : Settlement) → last? (xs ++ x ∷ []) ≡ some x
last-append [] x = refl
last-append (y ∷ []) x = refl
last-append (y ∷ z ∷ xs) x = last-append (z ∷ xs) x

-- A round with a failing message that has attempts left.
round_retries :
    (env : ProcessorEnv) (m : OrdersProcessMessage) (dlq : List OrdersDlqMessage) (w : Worker)
    (e : Exception)
    → env.publish_fails orders_retry ≡ none
    → (process_order env m w.session).0 ≡ err e
    → attempt_of m < max_of env
    → Waiting (content_of m) dlq w
    → Waiting (content_of (retry_payload m)) dlq (round env w)
      × ((round env w).session.db ≡ w.session.db)
      × (map (λ d. d.expiration) (round env w).queues.retry
          ≡ back_off_time (attempt_of m) (or_default env.retry_delay_ms 1000) ∷ [])
unfolding on_message
round_retries env m dlq w e works fails early waiting =
    let ends = failing env m w.session e fails in
    let run = process_order_lem env m w.session in
    let ordered : ltb (attempt_of m) (max_of env) ≡ true = ground arith in
    rw (waiting, run, ends, ordered, works, last-append w.settled acked) (refl, refl, refl)

round_buries :
    (env : ProcessorEnv) (m : OrdersProcessMessage) (dlq : List OrdersDlqMessage) (w : Worker)
    (e : Exception)
    → env.publish_fails orders_dlq ≡ none
    → (process_order env m w.session).0 ≡ err e
    → max_of env ≤ attempt_of m
    → Waiting (content_of m) dlq w
    → ((round env w).queues
        ≡ record { process = []; retry = []; dlq = dlq ++ dlq_payload env m e ∷ [] })
      × ((round env w).session.db ≡ w.session.db)
unfolding on_message
round_buries env m dlq w e works fails late waiting =
    let ends = failing env m w.session e fails in
    let run = process_order_lem env m w.session in
    let ordered : ltb (attempt_of m) (max_of env) ≡ false = ground arith in
    rw (waiting, run, ends, ordered, works, last-append w.settled acked) (refl, refl)

-- The waits before the retries of a message with an attempt, for as many retries as are given.
abbrev pub retry_delays : ℕ → ℕ → ℕ → List ℕ
retry_delays base_delay attempt zero = []
retry_delays base_delay attempt (suc n) =
    min (if attempt == 0 then base_delay / 2 else base_delay * 2 ^ (attempt - 1)) 60000
    ∷ retry_delays base_delay (attempt + 1) n

-- The expirations of the messages that wait after each of so many rounds.
abbrev pub expirations : ProcessorEnv → ℕ → Worker → List ℕ
expirations env zero w = []
expirations env (suc n) w =
    map (λ d. d.expiration) (round env w).queues.retry ++ expirations env n (round env w)

-- The queues with one message more in the dead-letter queue, and none in the others.
abbrev pub buried : ProcessorEnv → List OrdersDlqMessage → OrdersProcessMessage → Exception → Queues
buried env dlq m e = record {
  process = [];
  retry = [];
  dlq = dlq ++ (record { message = m; failed_at = env.now; error_reason = e }) ∷ [];
}

delay_lem : (a b : ℕ) → back_off_time a b ≡ min (if a == 0 then b / 2 else b * 2 ^ (a - 1)) 60000
unfolding back_off_time
delay_lem zero b = refl
delay_lem (suc a) b =
    let later : (suc a == 0) ≡ false = ground arith in
    let before : suc a - 1 ≡ a = omega arith in rw (later, before) refl

-- A message whose processing throws (it is to fail, its order is missing, or the database refuses the update), in
-- its queue with a number of attempt within the bound, the other messages gone from the queues of processing
-- and of retries: it is delivered once for each attempt up to the bound, after waits that double from the
-- configured one up to a minute; then it is the one new message of the dead-letter queue, with its last
-- attempt's number and the error, the other two queues are empty, and nothing was committed. The broker is
-- to accept what the worker publishes, and the worker's environment stays as it is.
pub failing_message_is_buried :
    (env : ProcessorEnv) (m : OrdersProcessMessage) (dlq : List OrdersDlqMessage) (w : Worker)
    (n : ℕ) (e : Exception)
    → env.publish_fails orders_retry ≡ none
    → env.publish_fails orders_dlq ≡ none
    → (process_order env m w.session).0 ≡ err e
    → attempt_of m + n ≡ max_of env
    → Waiting (content_of m) dlq w
    → ((rounds env (suc n) w).queues ≡ buried env dlq (after_attempts n m) e)
      × ((rounds env (suc n) w).session.db ≡ w.session.db)
      × (expirations env n w ≡ retry_delays (or_default env.retry_delay_ms 1000) (attempt_of m) n)
failing_message_is_buried env m dlq w zero e works works' fails counted waiting =
    let (queues, same) = round_buries env m dlq w e works' fails (omega arith) waiting in
    (queues, same, refl)
failing_message_is_buried env m dlq w (suc n) e works works' fails counted waiting =
    let (next, same, waits) = round_retries env m dlq w e works fails (omega arith) waiting in
    let again = fails_again env m w.session (round env w).session e same fails in
    let (queues, same', rest) =
      failing_message_is_buried env (retry_payload m) dlq (round env w) n e works works' again
        (omega arith) next in
    (
      queues ∙ ap (λ x. buried env dlq x e) (after_attempts-retry n m),
      same' ∙ same,
      ap (λ ds. ds ++ expirations env n (round env w)) waits
          ∙ ap (λ ds. back_off_time (attempt_of m) (or_default env.retry_delay_ms 1000) ∷ ds) rest
          ∙ ap (λ d. d ∷ retry_delays (or_default env.retry_delay_ms 1000) (attempt_of m + 1) n)
              (delay_lem (attempt_of m) (or_default env.retry_delay_ms 1000)),
    )
