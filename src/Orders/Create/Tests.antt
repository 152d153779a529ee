-- ===== src/Orders/Create/Tests.antt =====
-- `create` of src/orders/orders.service.ts on a small shop: two products, one user.
use e_commerce_order_platfor.Common.{
  if◌then◌else◌, ◌+◌, ◌≡◌, refl, ◌⊎◌, true, false, none, some, [], ◌∷◌, ◌++◌, ok, err, text,
  timeout_error, gateway_timeout, service_unavailable, find, length, arith,
}
use e_commerce_order_platfor.Common.Int.{ℤ, pos}
use e_commerce_order_platfor.Database.{Uuid, User, Product, OrderItem, Database}
use e_commerce_order_platfor.Runtime.{App, answer, silent}
use e_commerce_order_platfor.PaymentService.Status.{PaymentStatus}
use e_commerce_order_platfor.PaymentService.Service.{
  AuthorizeResponse, authorize, validate_authorize_request, save_payment,
}
use e_commerce_order_platfor.Outbox.Service.{add}
use e_commerce_order_platfor.Orders.Create.Steps.{
  Env, CreateOrderDto, Created, is_product, check_stock, take_stock, build_items, lock_products,
  insert_order, in_products,
}
use e_commerce_order_platfor.Orders.Create.Flow.{
  create, place, finish, on_error, find_existing, reuse_or_place, write_totals, add_events,
  insert_items, payments_left, payment_request,
}
use e_commerce_order_platfor.Orders.Create.Parts.{locked_rows}
use e_commerce_order_platfor.Orders.Create.Stock.{Takes, ordered}
use e_commerce_order_platfor.Orders.Create.Totals.{Stores, created_order, goods, priced_order}
use e_commerce_order_platfor.Orders.Create.Idempotency.{create_idempotent}
use e_commerce_order_platfor.Orders.Create.Responses.{
  create_accepts, payment_failure_keeps_order, race_is_unavailable,
}
use e_commerce_order_platfor.Orders.Create.Endpoint.{
  only_order, with_payment, post_order, repeated_post_is_ok,
}
use e_commerce_order_platfor.Orders.Create.Ledger.{
  create_moves_stock, create_announces, request_of, announcement_of, payment_of, is_charged,
}

abbrev buyer : User
buyer = record {
  id = 1;
  first_name = "Ada";
  last_name = "Byron";
  email = "ada@example.com";
  password_hash = none;
  roles = "user" ∷ [];
  scopes = [];
  is_active = true;
  avatar_file_id = none;
  created_at = 0;
}

abbrev tea : Product
tea = record {
  id = 10;
  name = "tea";
  price = 500;
  description = "green";
  stock = 5;
  created_at = 0;
  updated_at = 0;
}

abbrev cup : Product
cup = record {
  id = 11;
  name = "cup";
  price = 250;
  description = "blue";
  stock = 1;
  created_at = 0;
  updated_at = 0;
}

abbrev shop : Database
shop = record {
  users = buyer ∷ [];
  products = tea ∷ cup ∷ [];
  orders = [];
  order_items = [];
  payments = [];
  outbox_events = [];
  processed_messages = [];
  files = [];
  product_images = [];
}

abbrev app : App
app = record {
  session = record { db = shop; tx = none; stranded = 0 };
  orders_created = 0;
  orders_failed = 0;
  status_changes = [];
  audit = [];
}

abbrev cart : CreateOrderDto
cart = record {
  user_id = 1;
  items =
      (record { product_id = 10; quantity = 2 }) ∷ (record { product_id = 11; quantity = 1 }) ∷ [];
}

abbrev payment : AuthorizeResponse
payment = record {
  payment_id = 400;
  status = PaymentStatus.authorized;
  message = text "Payment authorized";
}

abbrev env : Env
env = record {
  order_id = 100;
  item_id = λ p. p + 1000;
  message_id = 201;
  event_id = 202;
  process_row_id = 301;
  placed_row_id = 302;
  now = 7;
  rivals = [];
  payments_grpc_timeout_ms = none;
  authorize = λ r. answer 30 payment;
  is_reached = true;
  payment_id = 400;
}

abbrev late_env : Env
late_env = record env { authorize = λ r. silent }

abbrev key : Uuid
key = 900

abbrev tea_line : OrderItem
tea_line = record {
  id = 1010;
  unit_price = 500;
  discount_amount = 0;
  quantity = 2;
  order_id = 100;
  product_id = 10;
}

abbrev cup_line : OrderItem
cup_line = record {
  id = 1011;
  unit_price = 250;
  discount_amount = 0;
  quantity = 1;
  order_id = 100;
  product_id = 11;
}

abbrev answered : Created
answered = record {
  order = priced_order env cart key 1250;
  items = tea_line ∷ cup_line ∷ [];
  created = true;
  payment = some payment;
}

creates : (create env cart key app).0 ≡ ok answered
unfolding create find_existing reuse_or_place on_error finish place lock_products check_stock
    insert_order build_items insert_items in_products take_stock write_totals add_events add
    payments_left authorize validate_authorize_request save_payment
creates = refl

create_idempotent_example :
    let w' = (create env cart key app).1 in
    ((create late_env cart key w').0 ≡ ok (record answered { created = false; payment = none }))
    × ((create late_env cart key w').1.session.db ≡ w'.session.db)
create_idempotent_example = create_idempotent env late_env cart key app answered refl creates

created_order_example :
    (answered.order ≡ priced_order env cart key (goods (locked_rows cart shop) cart.items))
    × Stores env.order_id (locked_rows cart shop) cart.items answered.items
created_order_example = created_order env cart key app answered refl refl creates refl

create_moves_stock_example :
    let d' = (create env cart key app).1.session.db in
    (d' ≡ shop)
    ⊎ ((k : Uuid)
        → Takes
            (ordered k cart.items)
            (find (is_product k) shop.products)
            (find (is_product k) d'.products))
create_moves_stock_example = create_moves_stock env cart key app ((refl, tt), (tt, tt))

create_announces_example :
    let d' = (create env cart key app).1.session.db in
    (d' ≡ shop)
    ⊎ ((total : ℤ) × (length d'.orders ≡ length shop.orders + 1)
        × (d'.outbox_events
            ≡ (shop.outbox_events ++ request_of env 301 ∷ announcement_of env 1 total 302 ∷ []))
        × (d'.payments ≡ (
            if is_charged env key total shop.payments
            then shop.payments ++ payment_of env key total ∷ []
            else shop.payments))
        × (d'.processed_messages ≡ shop.processed_messages))
create_announces_example = create_announces env cart key app

in_stock : check_stock (locked_rows cart shop) cart.items ≡ ok tt
unfolding check_stock
in_stock = refl

create_accepts_example :
    (c : Created) × ((create env cart key app).0 ≡ ok c)
    × (c.created ≡ true)
    × (c.payment ≡ some payment)
create_accepts_example =
    create_accepts env cart key app 30 payment (refl, refl, refl) refl refl refl in_stock refl refl
      (omega arith) refl (omega arith)

abbrev shop_after : Database
shop_after = (create env cart key app).1.session.db

places : place late_env cart key shop ≡ (ok (pos 1250), (place late_env cart key shop).1)
unfolding place lock_products check_stock insert_order build_items insert_items in_products
    take_stock write_totals add_events add
places = refl

payment_failure_keeps_order_example :
    ((create late_env cart key app).0 ≡ err (gateway_timeout (text "Payments service timeout")))
    × ((create late_env cart key app).1.session.db ≡ record (place late_env cart key shop).1 {
      payments =
          payments_left late_env
            (payment_request cart key 100 (pos 1250))
            (place late_env cart key shop).1;
    })
payment_failure_keeps_order_example =
    payment_failure_keeps_order late_env cart key app (pos 1250) (place late_env cart key shop).1
      timeout_error (refl, refl, refl) refl refl places refl

abbrev rival_env : Env
rival_env = record env { rivals = priced_order env cart key 1250 ∷ [] }

race_is_unavailable_example :
    let (r, w') = create rival_env cart key app in
    (r ≡ err (service_unavailable (text "Payments service unavailable")))
    × (w'.session.db ≡ shop)
    × (w'.session.stranded ≡ 1)
race_is_unavailable_example =
    race_is_unavailable rival_env cart key app (refl, refl, refl) refl refl in_stock refl

posts :
    (post_order env cart key app).0
    ≡ ok (record { status = 201; body = with_payment answered.order answered.items payment })
unfolding post_order create find_existing reuse_or_place on_error finish place lock_products
    check_stock insert_order build_items insert_items in_products take_stock write_totals add_events
    add payments_left authorize validate_authorize_request save_payment
posts = refl

repeated_post_is_ok_example :
    let w' = (post_order env cart key app).1 in
    ((post_order late_env cart key w').0
      ≡ ok (record { status = 200; body = only_order answered.order answered.items }))
    × ((post_order late_env cart key w').1.session.db ≡ w'.session.db)
repeated_post_is_ok_example =
    repeated_post_is_ok env late_env cart key app
      (record { status = 201; body = with_payment answered.order answered.items payment }) refl
      posts
