-- ===== src/Platform/Tests.antt =====
-- One order of one product, from the request to the processed order.
use e_commerce_order_platfor.Common.{
  ◌+◌, ◌≡◌, ◌≤◌, refl, true, false, none, some, List, [], ◌∷◌, ◌++◌, ok, text, find, length, select,
  arith, All, Distinct,
}
use e_commerce_order_platfor.Common.Int.{pos}
use e_commerce_order_platfor.Database.{
  EOrderStatus, Uuid, User, Product, OutboxEvent, Database, order_placed, process_message,
  order_event,
}
use e_commerce_order_platfor.Runtime.{App, answer}
use e_commerce_order_platfor.Rabbitmq.{Queues, content_of}
use e_commerce_order_platfor.PaymentService.Status.{PaymentStatus}
use e_commerce_order_platfor.PaymentService.Service.{
  AuthorizeResponse, authorize, validate_authorize_request, save_payment,
}
use e_commerce_order_platfor.Outbox.Service.{add, new_event}
use e_commerce_order_platfor.Outbox.Claim.{same_event}
use e_commerce_order_platfor.Outbox.Relay.{RelayEnv, to_process}
use e_commerce_order_platfor.Outbox.Relay.Sending.{ticks, is_outstanding, AllSend}
use e_commerce_order_platfor.Outbox.Relay.Delivery.{IsHeld}
use e_commerce_order_platfor.Orders.Create.Steps.{
  Env, CreateOrderDto, Created, new_order, check_stock, take_stock, build_items, lock_products,
  insert_order, in_products,
}
use e_commerce_order_platfor.Orders.Create.Flow.{
  create, place, finish, on_error, find_existing, reuse_or_place, write_totals, add_events,
  insert_items, placed_event, payments_left,
}
use e_commerce_order_platfor.Orders.Create.Totals.{priced_order}
use e_commerce_order_platfor.Orders.Processor.{ProcessorEnv, acked, has_id, on_message}
use e_commerce_order_platfor.Platform.{
  message_of, request_event, worker_on, created_order_is_processed,
}

abbrev ada : User
ada = record {
  id = 1;
  first_name = "Grace";
  last_name = "Hopper";
  email = "grace@example.com";
  password_hash = none;
  roles = "user" ∷ [];
  scopes = [];
  is_active = true;
  avatar_file_id = none;
  created_at = 0;
}

abbrev tea : Product
tea = record {
  id = 10;
  name = "tea";
  price = 500;
  description = "green";
  stock = 5;
  created_at = 0;
  updated_at = 0;
}

abbrev tables : Database
tables = record {
  users = ada ∷ [];
  products = tea ∷ [];
  orders = [];
  order_items = [];
  payments = [];
  outbox_events = [];
  processed_messages = [];
  files = [];
  product_images = [];
}

abbrev app : App
app = record {
  session = record { db = tables; tx = none; stranded = 0 };
  orders_created = 0;
  orders_failed = 0;
  status_changes = [];
  audit = [];
}

abbrev dto : CreateOrderDto
dto = record { user_id = 1; items = (record { product_id = 10; quantity = 2 }) ∷ [] }

abbrev payment : AuthorizeResponse
payment = record {
  payment_id = 400;
  status = PaymentStatus.authorized;
  message = text "Payment authorized";
}

abbrev env : Env
env = record {
  order_id = 100;
  item_id = λ p. p + 1000;
  message_id = 201;
  event_id = 202;
  process_row_id = 301;
  placed_row_id = 302;
  now = 7;
  rivals = [];
  payments_grpc_timeout_ms = none;
  authorize = λ r. answer 30 payment;
  is_reached = true;
  payment_id = 400;
}

abbrev key : Uuid
key = 900

abbrev answered : Created
answered = record {
  order = priced_order env dto key 1000;
  items =
      (record {
        id = 1010;
        unit_price = 500;
        discount_amount = 0;
        quantity = 2;
        order_id = 100;
        product_id = 10;
      })
      ∷ [];
  created = true;
  payment = some payment;
}

abbrev events : List OutboxEvent
events =
    request_event env dto key
    ∷ new_event 302 7 "order" 100 order_placed
        (order_event (placed_event env dto (new_order env dto key) (pos 1000)))
    ∷ []

creates : (create env dto key app).0 ≡ ok answered
unfolding create find_existing reuse_or_place on_error finish place lock_products check_stock
    insert_order build_items insert_items in_products take_stock write_totals add_events add
    payments_left authorize validate_authorize_request save_payment
creates = refl

writes : (create env dto key app).1.session.db.outbox_events ≡ events
unfolding create find_existing reuse_or_place on_error finish place lock_products check_stock
    insert_order build_items insert_items in_products take_stock write_totals add_events add
    payments_left authorize validate_authorize_request save_payment
writes = refl

abbrev relay : RelayEnv
relay = record {
  config = record { outbox_relay_batch_size = some 1; max_attempts = none };
  topic_orders_events = some "orders.events";
  retry_delay_ms = none;
  now = 20;
  locked = λ i. false;
  rabbitmq_publish = λ p. none;
  kafka_publish = λ t k p. none;
  kafka_ready = true;
}

abbrev relays : List RelayEnv
relays = relay ∷ relay ∷ []

ids : Distinct same_event (create env dto key app).1.session.db.outbox_events
ids = rw writes ((refl, tt), (tt, tt))

can : All (AllSend relays) (create env dto key app).1.session.db.outbox_events
can = rw writes (
  ((refl, refl, refl), ((refl, refl, refl), tt)),
  (((refl, refl, refl), ((refl, refl, refl), tt)), tt),
)

enough :
    length
      (select (is_outstanding relay.config) (create env dto key app).1.session.db.outbox_events)
    ≤ length relays
enough = rw writes (omega arith)

abbrev worker : ProcessorEnv
worker = record {
  max_attempts = none;
  retry_delay_ms = none;
  now = 30;
  row_id = 700;
  update_fails = none;
  publish_fails = λ k. none;
}

abbrev queues : Queues
queues = record { process = []; retry = []; dlq = [] }

created_order_is_processed_example :
    let r = ticks relays (record { db = (create env dto key app).1.session.db; sent = [] }) in
    let w' =
      on_message worker (some (content_of (message_of env dto key))) (worker_on r.db queues []) in
    IsHeld (to_process (process_message (message_of env dto key))) r.sent
    × (find (has_id env.order_id) w'.session.db.orders
        ≡ some (record answered.order { status = EOrderStatus.processed; processed_at = some 30 }))
    × (find (has_id 99) w'.session.db.orders
        ≡ find (has_id 99) (create env dto key app).1.session.db.orders)
    × (w'.settled ≡ ([] ++ acked ∷ []))
created_order_is_processed_example =
    created_order_is_processed env dto key app answered relay.config relays [] worker queues [] 99
      refl refl refl creates refl (omega arith) (omega arith) (refl, (refl, tt)) ids can enough refl
      refl
