-- ===== src/Outbox/Relay/Batch.antt =====
-- What a tick of the relay (src/outbox/outbox-relay.service.ts) does to the rows of its batch and to
-- the brokers: an account by tables, without the control flow.
use e_commerce_order_platfor.Common.{
  ⊤, ℕ, ◌+◌, ◌≡◌, refl, inl, inr, Option, none, some, List, [], ◌∷◌, ◌++◌, append-nil, append_assoc,
  text, Exception, plain, Result, ok, err, arith, Option-cases, Bool-cases, update_where,
  if◌then◌else◌,
}
use e_commerce_order_platfor.Database.{
  EventType, order_process_requested, order_placed, other, Payload, process_message, order_event,
  OutboxEvent,
}
use e_commerce_order_platfor.Outbox.Service.{
  event_has_id, as_sent, as_failed, mark_sent, mark_failed,
}
use e_commerce_order_platfor.Outbox.Relay.{
  publish_as, Sent, to_process, to_topic, RelayEnv, Relay, error_text, next_retry_at, relay_event,
  relay_all,
}

-- Why an event cannot be published, if it cannot.
abbrev pub failure_as : RelayEnv → EventType → Payload → Option Exception
failure_as env order_process_requested p = env.rabbitmq_publish p
failure_as env order_placed (process_message m) = elim env.topic_orders_events [
  | none ↦ some (plain (text "Not specified topic"))
  | some topic ↦ some (plain (text "Cannot read properties of undefined (reading 'orderId')"))
]
failure_as env order_placed (order_event e) = elim env.topic_orders_events [
  | none ↦ some (plain (text "Not specified topic"))
  | some topic ↦
      if env.kafka_ready then env.kafka_publish topic e.order_id (order_event e) else none
]
failure_as env (other name) p = some (plain (text "Unknown event"))

abbrev pub failure : RelayEnv → OutboxEvent → Option Exception
failure env e = failure_as env e.event_type e.payload

-- The message that an event is published as, where it can be; none while Kafka is disabled or stopped.
abbrev message_as : RelayEnv → EventType → Payload → List Sent
message_as env order_process_requested p = to_process p ∷ []
message_as env order_placed (process_message m) = []
message_as env order_placed (order_event e) = elim env.topic_orders_events [
  | none ↦ []
  | some topic ↦ if env.kafka_ready then to_topic topic e.order_id (order_event e) ∷ [] else []
]
message_as env (other name) p = []

abbrev unless_failed : Option Exception → List Sent → List Sent
unless_failed none ms = ms
unless_failed (some e) ms = []

abbrev pub messages : RelayEnv → OutboxEvent → List Sent
messages env e = unless_failed (failure env e) (message_as env e.event_type e.payload)

abbrev pub all_messages : RelayEnv → List OutboxEvent → List Sent
all_messages env [] = []
all_messages env (e ∷ es) = messages env e ++ all_messages env es

-- A row after the attempt to publish `e`.
abbrev attempted : RelayEnv → ℕ → Option Exception → OutboxEvent → OutboxEvent
attempted env attempts none x = as_sent env.now x
attempted env attempts (some error) x =
    as_failed (some (error_text error)) (some (next_retry_at env (attempts + 1))) x

abbrev pub settle_row : RelayEnv → OutboxEvent → OutboxEvent → OutboxEvent
settle_row env e x = attempted env e.attempts (failure env e) x

abbrev outcome : Option Exception → Result ⊤
outcome none = ok tt
outcome (some e) = err e

publish_lem :
    (env : RelayEnv) (ty : EventType) (p : Payload) (r : Relay)
    → publish_as env ty p r ≡ (
      outcome (failure_as env ty p),
      record r { sent = r.sent ++ unless_failed (failure_as env ty p) (message_as env ty p) },
    )
publish_lem env order_process_requested p r =
    ground (arith, Option-cases (env.rabbitmq_publish p), append-nil r.sent)
publish_lem env order_placed (process_message m) r =
    ground (arith, Option-cases env.topic_orders_events, append-nil r.sent)
publish_lem env order_placed (order_event e) r = elim (Option-cases env.topic_orders_events) [
  | inl no_topic ↦ ground (arith, append-nil r.sent)
  | inr (topic, h) ↦ ground (
    arith,
    Bool-cases env.kafka_ready,
    Option-cases (env.kafka_publish topic e.order_id (order_event e)),
    append-nil r.sent,
  )
]
publish_lem env (other name) p r = ground (arith, append-nil r.sent)

relay_event_lem :
    (env : RelayEnv) (e : OutboxEvent) (r : Relay)
    → relay_event env e r ≡ (
      ok tt,
      record r {
        db = record r.db {
          outbox_events = update_where (event_has_id e.id) (settle_row env e) r.db.outbox_events;
        };
        sent = r.sent ++ messages env e;
      },
    )
unfolding relay_event mark_sent mark_failed
relay_event_lem env e r =
    let published = publish_lem env e.event_type e.payload r in
    elim (Option-cases (failure env e)) [
      | inl none_failed ↦ rw (published, none_failed) (ground arith)
      | inr (x, failed) ↦ rw (published, failed) (ground (arith, append-nil r.sent))
    ]

-- The rows after all attempts.
abbrev pub settle_all : RelayEnv → List OutboxEvent → List OutboxEvent → List OutboxEvent
settle_all env [] t = t
settle_all env (e ∷ es) t =
    settle_all env es (update_where (event_has_id e.id) (settle_row env e) t)

pub relay_all_lem :
    (env : RelayEnv) (es : List OutboxEvent) (r : Relay)
    → relay_all env es r ≡ (
      ok tt,
      record r {
        db = record r.db { outbox_events = settle_all env es r.db.outbox_events };
        sent = r.sent ++ all_messages env es;
      },
    )
unfolding relay_all
relay_all_lem env [] r = ground (arith, append-nil r.sent)
relay_all_lem env (e ∷ es) r =
    let r' : Relay = record r {
      db = record r.db {
        outbox_events = update_where (event_has_id e.id) (settle_row env e) r.db.outbox_events;
      };
      sent = r.sent ++ messages env e;
    } in
    rw
      (
        relay_event_lem env e r,
        relay_all_lem env es r',
        append_assoc r.sent (messages env e) (all_messages env es),
      )
      refl
