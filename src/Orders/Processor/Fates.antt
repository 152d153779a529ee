-- ===== src/Orders/Processor/Fates.antt =====
-- What becomes of a message that `onMessage` of src/orders/orders-processor.consumer.ts receives.
use e_commerce_order_platfor.Common.{
  ◌≤◌, ◌<◌, ◌≡◌, true, false, none, some, Exception, any, or_default,
}
use e_commerce_order_platfor.Database.{OrdersProcessMessage, Database}
use e_commerce_order_platfor.Rabbitmq.{
  RoutingKey, content_of, publish_retry, publish_dlq, back_off_time,
}
use e_commerce_order_platfor.Orders.Processor.{
  ProcessorEnv, has_message, Worker, attempt_of, max_of, retry_payload, dlq_payload, ack, nack,
}
use e_commerce_order_platfor.Orders.Processor.Transaction.{processed_db}

-- The worker after a transaction that left `d` committed.
abbrev pub with_db : Database → Worker → Worker
with_db d w = record w { session = record w.session { db = d; tx = none } }

-- The fates of a message `m` that a worker in state `w` receives, with the state after.
pub data Fate (env : ProcessorEnv) (m : OrdersProcessMessage) (w : Worker) : Worker → Type 0 where
  -- It was recorded before.
  repeated :
      any (has_message m.message_id) w.session.db.processed_messages ≡ true
      → Fate env m w (ack (with_db w.session.db w))
  -- It is recorded now, with its order marked as processed.
  processed :
      any (has_message m.message_id) w.session.db.processed_messages ≡ false
      → Fate env m w (ack (with_db (processed_db env m w.session.db) w))
  -- A copy with the next number of attempt waits in the retry queue.
  retried :
      attempt_of m < max_of env
      → Fate env m w (
          ack (record (with_db w.session.db w) {
            queues =
                publish_retry
                  (content_of (retry_payload m))
                  (back_off_time (attempt_of m) (or_default env.retry_delay_ms 1000))
                  w.queues;
          }))
  -- It is in the dead-letter queue, with the error.
  buried :
      (error : Exception)
      → max_of env ≤ attempt_of m
      → Fate env m w (
          ack (record (with_db w.session.db w) {
            queues = publish_dlq (dlq_payload env m error) w.queues;
          }))
  -- The broker refused the copy, and has the message itself back.
  returned :
      (key : RoutingKey) (e : Exception)
      → env.publish_fails key ≡ some e
      → Fate env m w (nack (with_db w.session.db w))
