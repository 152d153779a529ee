-- ===== src/Orders/Processor.antt =====
-- The worker that processes orders, `OrdersProcessorConsumer` of src/orders/orders-processor.consumer.ts.
pub mod Transaction
pub mod Once
pub mod Fates
pub mod Retries
use e_commerce_order_platfor.Common.{
  ⊤, ℕ, ◌+◌, String, Bool, true, false, not, Option, none, some, List, [], ◌∷◌, ◌++◌, Action, pure,
  throw, gets, modify, throw_if, try_catch, finally, ◌>>=◌, ◌>>◌, Message, text, about, Exception,
  plain, coded, Result, ok, err, or_default, ltb, ◌==◌, if◌then◌else◌, any, update_where,
}
use e_commerce_order_platfor.Database.{
  Uuid, EOrderStatus, Order, OrdersProcessMessage, ProcessedMessage, Database, Session,
  start_transaction, commit, rollback, release, in_tx,
}
use e_commerce_order_platfor.Rabbitmq.{
  RoutingKey, orders_retry, orders_dlq, Content, not_json, json, OrdersDlqMessage, Queues,
  content_of, publish_retry, publish_dlq, back_off_time,
}

-- The configuration, the clock, the id of a new row, and what the database and the broker refuse.
pub record ProcessorEnv : Type 0 where
  pub max_attempts : Option ℕ
  pub retry_delay_ms : Option ℕ
  pub now : ℕ
  pub row_id : Uuid
  pub update_fails : Option Exception
  pub publish_fails : RoutingKey → Option Exception

pub data ProcessResult : Type 0 where
  success duplicate : ProcessResult

-- `channel.ack(msg)` and `channel.nack(msg, false, true)`.
pub data Settlement : Type 0 where
  acked requeued : Settlement

pub record Worker : Type 0 where
  pub session : Session
  pub queues : Queues
  pub settled : List Settlement

abbrev pub has_message : Uuid → ProcessedMessage → Bool
has_message i m = m.message_id == i

abbrev pub has_id : Uuid → Order → Bool
has_id i o = o.id == i

-- `parseMessage`: without a `messageId` or an `orderId` a body is refused.
abbrev pub parse_message : Content → Option OrdersProcessMessage
parse_message not_json = none
parse_message (json none o c a s) = none
parse_message (json (some i) none c a s) = none
parse_message (json (some i) (some o) c a s) =
    some (record { message_id = i; order_id = o; created_at = c; attempt = a; simulate = s })

abbrev pub new_processed : ProcessorEnv → OrdersProcessMessage → ProcessedMessage
new_processed env m = record {
  id = env.row_id;
  message_id = m.message_id;
  order_id = m.order_id;
  handler = "orders.process";
}

-- INSERT … ON CONFLICT (message_id) DO NOTHING RETURNING id: whether a row came back. The foreign key
-- on `order_id` is checked for a new row.
abbrev pub insert_processed : ProcessorEnv → OrdersProcessMessage → Action Database Bool
insert_processed env m d =
    if any (has_message m.message_id) d.processed_messages
    then (ok false, d)
    else (if any (has_id m.order_id) d.orders
        then (
          ok true,
          record d { processed_messages = d.processed_messages ++ new_processed env m ∷ [] },
        )
        else (err (coded "23503"), d))

-- SET status = 'processed', processed_at = COALESCE(processed_at, now())
abbrev pub as_processed : ℕ → Order → Order
as_processed now o = record o {
  status = EOrderStatus.processed;
  processed_at = some (or_default o.processed_at now);
}

-- UPDATE orders … RETURNING id: whether a row came back, where the database does not refuse.
abbrev pub update_order : ProcessorEnv → Uuid → Action Database Bool
update_order env i d = elim env.update_fails [
  | some e ↦ (err e, d)
  | none ↦ (
    ok (any (has_id i) d.orders),
    record d { orders = update_where (has_id i) (as_processed env.now) d.orders },
  )
]

abbrev pub apply_message : ProcessorEnv → OrdersProcessMessage → Action Session ProcessResult
apply_message env m = do
  throw_if m.simulate (plain (text "Simulated worker error"))
  updated ← in_tx (update_order env m.order_id)
  throw_if (not updated) (plain (about "Order not found: " m.order_id ""))
  modify commit
  pure success

abbrev pub unless_duplicate :
    ProcessorEnv → OrdersProcessMessage → Bool → Action Session ProcessResult
unless_duplicate env m false = modify commit >> pure duplicate
unless_duplicate env m true = apply_message env m

-- `processOrder`
unfoldable pub process_order : ProcessorEnv → OrdersProcessMessage → Action Session ProcessResult
process_order env m = do
  modify start_transaction
  finally
      (try_catch (in_tx (insert_processed env m) >>= unless_duplicate env m)
        (λ error. modify rollback >> throw error))
      release

abbrev pub ack : Worker → Worker
ack w = record w { settled = w.settled ++ acked ∷ [] }

abbrev pub nack : Worker → Worker
nack w = record w { settled = w.settled ++ requeued ∷ [] }

abbrev pub attempt_of : OrdersProcessMessage → ℕ
attempt_of m = or_default m.attempt 1

abbrev pub max_of : ProcessorEnv → ℕ
max_of env = or_default env.max_attempts 3

-- The message of the retry queue, and the message of the dead-letter queue.
abbrev pub retry_payload : OrdersProcessMessage → OrdersProcessMessage
retry_payload m = record m { attempt = some (attempt_of m + 1) }

abbrev pub dlq_payload : ProcessorEnv → OrdersProcessMessage → Exception → OrdersDlqMessage
dlq_payload env m error = record { message = m; failed_at = env.now; error_reason = error }

abbrev publish_or_nack : Option Exception → (Queues → Queues) → Worker → Worker
publish_or_nack none f w = ack (record w { queues = f w.queues })
publish_or_nack (some e) f w = nack w

abbrev pub after_processing :
    ProcessorEnv → OrdersProcessMessage → Result ProcessResult → Worker → Worker
after_processing env m (ok r) w = ack w
after_processing env m (err error) w =
    if ltb (attempt_of m) (max_of env)
    then publish_or_nack (env.publish_fails orders_retry)
        (publish_retry (content_of (retry_payload m))
          (back_off_time (attempt_of m) (or_default env.retry_delay_ms 1000)))
        w
    else publish_or_nack (env.publish_fails orders_dlq) (publish_dlq (dlq_payload env m error)) w

abbrev pub on_parsed : ProcessorEnv → Option OrdersProcessMessage → Worker → Worker
on_parsed env none w = ack w
on_parsed env (some m) w =
    let (r, s) = process_order env m w.session in
    after_processing env m r (record w { session = s })

-- `onMessage`; null is the cancellation of the consumer.
unfoldable pub on_message : ProcessorEnv → Option Content → Worker → Worker
on_message env none w = w
on_message env (some content) w = on_parsed env (parse_message content) w
