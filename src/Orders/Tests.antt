-- ===== src/Orders/Tests.antt =====
-- The worker of src/orders/orders-processor.consumer.ts and the changes of status of
-- src/orders/orders.service.ts on one order.
use e_commerce_order_platfor.Common.{
  plain, err, or_default, text, ◌≡◌, refl, true, false, none, some, List, [], ◌∷◌, ◌++◌, ok, find,
  select,
}
use e_commerce_order_platfor.Common.Int.{pos}
use e_commerce_order_platfor.Database.{EOrderStatus, Order, OrdersProcessMessage, Session}
use e_commerce_order_platfor.Runtime.{App, OrderStatusChangedEvent}
use e_commerce_order_platfor.Auth.{ERoles, AuthUser}
use e_commerce_order_platfor.Rabbitmq.{content_of}
use e_commerce_order_platfor.Orders.Processor.{
  ProcessorEnv, Worker, duplicate, has_id, process_order, new_processed,
}
use e_commerce_order_platfor.Orders.Processor.Once.{Delivery, deliver_all, processed_once}
use e_commerce_order_platfor.Orders.Processor.Retries.{
  rounds, after_attempts, buried, expirations, retry_delays, failing_message_is_buried,
}
use e_commerce_order_platfor.Orders.Manage.{orders_of}
use e_commerce_order_platfor.Orders.Manage.{update_status}
use e_commerce_order_platfor.Orders.Manage.Overlap.{announced_by, overlapping_calls_repeat}
use e_commerce_order_platfor.Orders.Manage.Versions.{
  StatusCall, StatusWrite, by_call, by_processor, run_call, run_writes, event_of, Chain,
  run_writes-Chain,
}

abbrev order : Order
order = record {
  id = 100;
  status = EOrderStatus.pending;
  items_subtotal = 1250;
  items_discount_total = 0;
  shipping_amount = 0;
  order_discount_amount = 0;
  total_amount = pos 1250;
  idempotency_key = 900;
  user_id = 1;
  status_version = 0;
  created_at = 7;
  updated_at = 7;
  processed_at = none;
}

abbrev session : Session
session = record {
  db = record {
    users = [];
    products = [];
    orders = order ∷ [];
    order_items = [];
    payments = [];
    outbox_events = [];
    processed_messages = [];
    files = [];
    product_images = [];
  };
  tx = none;
  stranded = 0;
}

abbrev message : OrdersProcessMessage
message = record {
  message_id = 201;
  order_id = 100;
  created_at = 7;
  attempt = some 1;
  simulate = false;
}

abbrev failing : OrdersProcessMessage
failing = record message { message_id = 202; simulate = true }

abbrev env : ProcessorEnv
env = record {
  max_attempts = none;
  retry_delay_ms = none;
  now = 30;
  row_id = 700;
  update_fails = none;
  publish_fails = λ k. none;
}

abbrev worker : Worker
worker = record {
  session = session;
  queues = record { process = content_of failing ∷ []; retry = []; dlq = [] };
  settled = [];
}

abbrev deliveries : List Delivery
deliveries =
    (env, some (content_of message))
    ∷ (env, some (content_of failing))
    ∷ (record env { now = 40 }, some (content_of message))
    ∷ (env, none)
    ∷ []

abbrev done : Worker
done = record worker {
  session = record session {
    db = record session.db { processed_messages = new_processed env message ∷ [] };
  };
}

processed_once_example :
    let s = (deliver_all deliveries done).session in
    process_order env message s ≡ (ok duplicate, record s { tx = none })
processed_once_example = processed_once deliveries env message done refl

fails : (process_order env failing worker.session).0 ≡ err (plain (text "Simulated worker error"))
unfolding process_order
fails = refl

failing_message_is_buried_example :
    ((rounds env 3 worker).queues
      ≡ buried env [] (after_attempts 2 failing) (plain (text "Simulated worker error")))
    × ((rounds env 3 worker).session.db ≡ session.db)
    × (expirations env 2 worker ≡ retry_delays (or_default env.retry_delay_ms 1000) 1 2)
failing_message_is_buried_example =
    failing_message_is_buried env failing [] worker 2 (plain (text "Simulated worker error")) refl
      refl fails refl refl

abbrev app : App
app = record {
  session = session;
  orders_created = 0;
  orders_failed = 0;
  status_changes = [];
  audit = [];
}

abbrev support : AuthUser
support = record { sub = 2; roles = some (ERoles.support ∷ []); scopes = none }

abbrev stranger : AuthUser
stranger = record { sub = 3; roles = some (ERoles.user ∷ []); scopes = none }

abbrev to_paid : StatusCall
to_paid = record { now = 50; order_id = 100; status = EOrderStatus.paid; user = support }

abbrev to_shipped : StatusCall
to_shipped = record { now = 52; order_id = 100; status = EOrderStatus.shipped; user = support }

abbrev barred : StatusCall
barred = record { now = 51; order_id = 100; status = EOrderStatus.cancelled; user = stranger }

abbrev status_writes : List StatusWrite
status_writes = by_call to_paid ∷ by_call barred ∷ by_processor 51 100 ∷ by_call to_shipped ∷ []

run_writes-Chain_example :
    (new : List OrderStatusChangedEvent) × (o' : Order) × ((run_writes status_writes
        app).status_changes
      ≡ [] ++ new)
    × (find (has_id 100) (orders_of (run_writes status_writes app)) ≡ some o')
    × Chain EOrderStatus.pending 0 (select (event_of 100) new) o'.status o'.status_version
run_writes-Chain_example = run_writes-Chain status_writes app 100 order refl

overlapping_calls_repeat_example :
    let w' = (update_status (run_call to_shipped) 50 100 EOrderStatus.paid support app).1 in
    (w'.status_changes ≡ ([] ++ announced_by to_shipped order ∷ announced_by to_paid order ∷ []))
    × (find (has_id 100) (orders_of w')
        ≡ some (record order { status = EOrderStatus.paid; status_version = 1; updated_at = 50 }))
overlapping_calls_repeat_example =
    overlapping_calls_repeat to_paid to_shipped app order refl refl refl refl refl refl
