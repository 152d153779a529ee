-- ===== src/Rabbitmq.antt =====
-- The queues of src/rabbitmq/rabbitmq.topology.ts as `assertInfrastructure` of
-- src/rabbitmq/rabbitmq.service.ts declares them, and the `backOffTime` that the relay
-- (src/outbox/outbox-relay.service.ts) and the processor (src/orders/orders-processor.consumer.ts)
-- both have. The broker itself is not modelled beyond its queues.
mod Service
mod Life
mod Tests
use e_commerce_order_platfor.Common.{
  ⊤, ℕ, zero, suc, ◌+◌, ◌*◌, ◌/◌, ◌^◌, ◌≤◌, ◌<◌, ◌≡◌, min, String, Bool, Option, none, some, List,
  [], ◌∷◌, ◌++◌, Message, Exception, Result, ok, err, arith,
}
use e_commerce_order_platfor.Database.{Uuid, OrdersProcessMessage}

-- ORDERS_PROCESS_ROUTING_KEY, ORDERS_RETRY_ROUTING_KEY and ORDERS_DLQ_ROUTING_KEY.
pub data RoutingKey : Type 0 where
  orders_process orders_retry orders_dlq : RoutingKey

-- The body of a message, as `JSON.parse` reads it: its fields, each where it is there, or nothing.
pub data Content : Type 0 where
  not_json : Content
  json :
      (message_id : Option Uuid) (order_id : Option Uuid) (created_at : ℕ) (attempt : Option ℕ)
      (simulate : Bool)
      → Content

-- `OrdersDlqMessage` of src/orders/orders-queue.types.ts.
pub record OrdersDlqMessage : Type 0 where
  pub message : OrdersProcessMessage
  pub failed_at : ℕ
  pub error_reason : Exception

-- A message of the retry queue, with its `expiration`.
pub record Delayed : Type 0 where
  pub content : Content
  pub expiration : ℕ

-- The three queues that are bound to the exchange, each by the routing key of its own.
pub record Queues : Type 0 where
  pub process : List Content
  pub retry : List Delayed
  pub dlq : List OrdersDlqMessage

abbrev pub content_of : OrdersProcessMessage → Content
content_of m = json (some m.message_id) (some m.order_id) m.created_at m.attempt m.simulate

abbrev pub publish_process : Content → Queues → Queues
publish_process c q = record q { process = q.process ++ c ∷ [] }

abbrev pub publish_retry : Content → ℕ → Queues → Queues
publish_retry c expiration q = record q {
  retry = q.retry ++ (record { content = c; expiration = expiration }) ∷ [];
}

abbrev pub publish_dlq : OrdersDlqMessage → Queues → Queues
publish_dlq m q = record q { dlq = q.dlq ++ m ∷ [] }

-- The oldest message of the retry queue expires: `x-dead-letter-exchange` and
-- `x-dead-letter-routing-key` send it back to the queue of the processor.
abbrev expired : List Delayed → Queues → Queues
expired [] q = q
expired (d ∷ ds) q = record q { process = q.process ++ d.content ∷ []; retry = ds }

abbrev pub expire_retry : Queues → Queues
expire_retry q = expired q.retry q

abbrev pub max_delay_ms : ℕ
max_delay_ms = 60000

-- baseDelay * FACTOR ** (attempt - 1), where FACTOR is 2 and 2 ** -1 is a half, rounded down.
abbrev pub scaled : ℕ → ℕ → ℕ
scaled zero base_delay = base_delay / 2
scaled (suc n) base_delay = base_delay * 2 ^ n

unfoldable pub back_off_time : ℕ → ℕ → ℕ
back_off_time attempt base_delay = min (scaled attempt base_delay) max_delay_ms

scaled-suc : (n base_delay : ℕ) → scaled (suc (suc n)) base_delay ≡ scaled (suc n) base_delay * 2
scaled-suc n base_delay = grind arith

-- The delay never exceeds 60000 milliseconds, a later attempt from the first on never waits less than
-- an earlier one, and each attempt after the first waits twice as long as the one before it, up to the
-- cap.
back_off_time-grows :
    (n base_delay : ℕ)
    → (back_off_time n base_delay ≤ max_delay_ms)
      × (back_off_time (suc n) base_delay ≤ back_off_time (suc (suc n)) base_delay)
      × (back_off_time (suc (suc n)) base_delay
          ≡ min (back_off_time (suc n) base_delay * 2) max_delay_ms)
unfolding back_off_time
back_off_time-grows n base_delay =
    let twice = scaled-suc n base_delay in (ground arith, ground arith, ground arith)
