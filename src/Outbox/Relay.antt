-- ===== src/Outbox/Relay.antt =====
-- `OutboxRelayService` of src/outbox/outbox-relay.service.ts. What the brokers' clients do with a
-- message is a parameter; what they sent without an error is kept in the order of the calls.
pub mod Batch
pub mod Ticks
pub mod Bounds
pub mod Sending
pub mod Drain
pub mod Delivery
use e_commerce_order_platfor.Common.{
  ⊤, ℕ, ◌+◌, String, Bool, true, false, Option, none, some, List, [], ◌∷◌, ◌++◌, Action, pure,
  throw, modify, try_catch, or_throw, ◌>>=◌, ◌>>◌, Message, text, Exception, plain, bad_request,
  conflict, forbidden, not_found, unauthorized, gateway_timeout, service_unavailable, timeout_error,
  coded, Result, ok, err, or_default, if◌then◌else◌,
}
use e_commerce_order_platfor.Database.{
  Uuid, EventType, order_process_requested, order_placed, other, Payload, process_message,
  order_event, OutboxEvent, Database,
}
use e_commerce_order_platfor.Rabbitmq.{back_off_time}
use e_commerce_order_platfor.Outbox.Service.{OutboxConfig, claim_batch, mark_sent, mark_failed}

-- A message that a client sent to its broker without an error: of the exchange for orders, or of a topic, with its key.
pub data Sent : Type 0 where
  to_process : Payload → Sent
  to_topic : String → Uuid → Payload → Sent

-- The clients, `kafka.topicOrdersEvents`, `rabbitMq.retryDelayMs`, and the clock of the tick.
pub record RelayEnv : Type 0 where
  pub config : OutboxConfig
  pub topic_orders_events : Option String
  pub retry_delay_ms : Option ℕ
  pub now : ℕ
  -- The rows that other transactions hold.
  pub locked : Uuid → Bool
  -- The error that a publication ends with, if any.
  pub rabbitmq_publish : Payload → Option Exception
  pub kafka_publish : String → Uuid → Payload → Option Exception
  -- Whether `KafkaService` is enabled and has a producer.
  pub kafka_ready : Bool

-- What a tick changes: the tables of its transaction, and what was sent to the brokers.
pub record Relay : Type 0 where
  pub db : Database
  pub sent : List Sent

-- `error.message`, or the error as a string.
abbrev pub error_text : Exception → Message
error_text (bad_request m) = m
error_text (conflict m) = m
error_text (forbidden m) = m
error_text (not_found m) = m
error_text (unauthorized m) = m
error_text (gateway_timeout m) = m
error_text (service_unavailable m) = m
error_text (plain m) = m
error_text timeout_error = text "Timeout has occurred"
error_text (coded code) = text code

-- The client's call to its broker: the channel's `publish`, or the producer's `send`.
abbrev pub hand_over : Option Exception → Sent → Action Relay ⊤
hand_over none m = modify (λ r. record r { sent = r.sent ++ m ∷ [] })
hand_over (some e) m = throw e

-- `KafkaService.publish`: while Kafka is disabled or the producer is gone it returns and sends nothing.
abbrev pub to_kafka : RelayEnv → String → Uuid → Payload → Action Relay ⊤
to_kafka env topic key payload =
    if env.kafka_ready
    then hand_over (env.kafka_publish topic key payload) (to_topic topic key payload)
    else pure tt

-- `payload['order']['orderId']`: a message for the processor has no `order`.
abbrev pub order_id_of : Payload → Result Uuid
order_id_of (process_message m) =
    err (plain (text "Cannot read properties of undefined (reading 'orderId')"))
order_id_of (order_event e) = ok e.order_id

-- `publish`, by the type of the event. An order id is never the empty string.
abbrev pub publish_as : RelayEnv → EventType → Payload → Action Relay ⊤
publish_as env order_process_requested payload =
    hand_over (env.rabbitmq_publish payload) (to_process payload)
publish_as env order_placed payload = do
  topic ← or_throw env.topic_orders_events (plain (text "Not specified topic"))
  key ← λ r. (order_id_of payload, r)
  to_kafka env topic key payload
publish_as env (other name) payload = throw (plain (text "Unknown event"))

abbrev pub publish : RelayEnv → OutboxEvent → Action Relay ⊤
publish env e = publish_as env e.event_type e.payload

abbrev pub next_retry_at : RelayEnv → ℕ → ℕ
next_retry_at env attempts = env.now + back_off_time attempts (or_default env.retry_delay_ms 1000)

abbrev pub on_db : (Database → Database) → Action Relay ⊤
on_db f = modify (λ r. record r { db = f r.db })

-- The body of the loop of `relayTick`.
unfoldable pub relay_event : RelayEnv → OutboxEvent → Action Relay ⊤
relay_event env e = try_catch (publish env e >> on_db (mark_sent env.now e.id)) (λ error.
    on_db (mark_failed e.id (some (error_text error)) (some (next_retry_at env (e.attempts + 1)))))

unfoldable pub relay_all : RelayEnv → List OutboxEvent → Action Relay ⊤
relay_all env [] = pure tt
relay_all env (e ∷ events) = relay_event env e >> relay_all env events

-- `relayTick`: the transaction commits, since every error of a publication is caught.
unfoldable pub relay_tick : RelayEnv → Action Relay ⊤
relay_tick env = do
  events ← λ r. ((claim_batch env.config env.locked env.now none r.db).0, r)
  relay_all env events
