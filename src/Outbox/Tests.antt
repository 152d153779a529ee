-- ===== src/Outbox/Tests.antt =====
-- A tick of the relay of src/outbox/outbox-relay.service.ts, with Kafka down.
use e_commerce_order_platfor.Common.{
  true, ◌≤◌, ◌≡◌, refl, Bool, false, none, some, List, [], ◌∷◌, All, Distinct, text, plain, arith,
}
use e_commerce_order_platfor.Common.Int.{pos}
use e_commerce_order_platfor.Database.{
  order_process_requested, order_placed, Payload, process_message, order_event, OutboxEvent,
  Database,
}
use e_commerce_order_platfor.Outbox.Service.{new_event, as_sent, claim_batch}
use e_commerce_order_platfor.Outbox.Claim.{same_event, claimed, is_open, attempts_bound}
use e_commerce_order_platfor.Outbox.Relay.{RelayEnv, Relay, relay_tick}
use e_commerce_order_platfor.Outbox.Relay.Bounds.{relay_tick_bounded}

abbrev request : Payload
request = process_message (record {
  message_id = 201;
  order_id = 100;
  created_at = 7;
  attempt = some 1;
  simulate = false;
})

abbrev announcement : Payload
announcement = order_event (record {
  event_id = 202;
  event_name = "OrderPlaced";
  occurred_at = 7;
  order_id = 100;
  user_id = 1;
  total_amount = pos 1250;
  currency = "USD";
})

abbrev requested : OutboxEvent
requested = new_event 301 7 "order" 100 order_process_requested request

abbrev announced : OutboxEvent
announced = new_event 302 8 "order" 100 order_placed announcement

abbrev sent_before : OutboxEvent
sent_before = as_sent 5 (new_event 300 3 "order" 99 order_process_requested request)

abbrev events : List OutboxEvent
events = sent_before ∷ announced ∷ requested ∷ []

abbrev tables : Database
tables = record {
  users = [];
  products = [];
  orders = [];
  order_items = [];
  payments = [];
  outbox_events = events;
  processed_messages = [];
  files = [];
  product_images = [];
}

abbrev relay : Relay
relay = record { db = tables; sent = [] }

abbrev env : RelayEnv
env = record {
  config = record { outbox_relay_batch_size = none; max_attempts = none };
  topic_orders_events = some "orders.events";
  retry_delay_ms = none;
  now = 20;
  locked = λ i. false;
  rabbitmq_publish = λ p. none;
  kafka_ready = true;
  kafka_publish = λ t k p. some (plain (text "broker not available"));
}

abbrev ids_distinct : Distinct same_event events
ids_distinct = ((refl, (refl, tt)), ((refl, tt), (tt, tt)))

abbrev open_events : OutboxEvent → Bool
open_events e = is_open env.config env.locked 20 e

-- The older event is first, and the one that was sent is not taken.
claims : claimed env.config env.locked 20 tables ≡ requested ∷ announced ∷ []
unfolding claim_batch
claims = refl

relay_tick_bounded_example :
    All (λ e. e.attempts ≤ attempts_bound env.config) (relay_tick env relay).1.db.outbox_events
relay_tick_bounded_example =
    relay_tick_bounded env relay ids_distinct (omega arith, (omega arith, (omega arith, tt)))

-- Kafka works.
abbrev working : RelayEnv
working = record env { kafka_publish = λ t k p. none }
