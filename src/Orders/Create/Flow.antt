-- ===== src/Orders/Create/Flow.antt =====
-- The transaction of `OrdersService.create` (src/orders/orders.service.ts) around its steps, the
-- payment that follows the commit, and the `catch` and `finally` blocks.
use e_commerce_order_platfor.Common.{
  ⊤, ℕ, ◌+◌, Bool, true, false, not, Option, none, some, List, ◌++◌, Action, pure, throw, throw_if,
  gets, modify, or_throw, try_catch, finally, ◌>>=◌, ◌>>◌, text, Exception, bad_request,
  gateway_timeout, service_unavailable, plain, timeout_error, coded, find, any, select, length,
  update_where, ◌==◌, leb, if◌then◌else◌, or_default,
}
use e_commerce_order_platfor.Common.Int.{ℤ, sub_ℕ}
use e_commerce_order_platfor.Database.{
  Uuid, Order, OrderItem, Payment, Session, OrdersProcessMessage, OrderEventEnvelopeV1,
  process_message, order_event, order_process_requested, order_placed, Database, start_transaction,
  commit, rollback, release, in_tx,
}
use e_commerce_order_platfor.Runtime.{App, on_session, in_session, await}
use e_commerce_order_platfor.PaymentService.Service.{AuthorizeRequest, numeric_bound, authorize}
use e_commerce_order_platfor.Outbox.Service.{add}
use package.text.Mathlib.Text.{◌==◌ as str_eq}
use e_commerce_order_platfor.Orders.Create.Steps.{
  CreateOrderDto, Env, Created, unique, product_ids, is_order, item_of, has_order_key, order_by_key,
  check_stock, lock_products, new_order, insert_order, build_items, take_stock, in_products, sum_by,
  line_total,
}

-- Steps 6 and 7: the totals are counted by the database and written to the order. A subtotal that
-- `numeric(12, 2)` does not hold is the driver's error.
unfoldable pub write_totals : Uuid → Action Database ℤ
write_totals order_id = do
  rows ← gets (λ d. select (item_of order_id) d.order_items)
  let items_subtotal = sum_by line_total rows
  let items_discount_total = sum_by (λ i. i.discount_amount) rows
  let shipping_amount : ℕ = 0
  let order_discount_amount : ℕ = 0
  let total_amount =
      sub_ℕ (items_subtotal + shipping_amount) (items_discount_total + order_discount_amount)
  throw_if (leb numeric_bound items_subtotal) (coded "22003")
  modify (λ d. record d {
    orders =
        update_where (is_order order_id)
          (λ o. record o {
            items_subtotal = items_subtotal;
            items_discount_total = items_discount_total;
            shipping_amount = shipping_amount;
            order_discount_amount = order_discount_amount;
            total_amount = total_amount;
          })
          d.orders;
  })
  pure total_amount

abbrev pub process_request : Env → Order → OrdersProcessMessage
process_request env order = record {
  message_id = env.message_id;
  order_id = order.id;
  created_at = order.created_at;
  attempt = some 1;
  simulate = false;
}

abbrev pub placed_event : Env → CreateOrderDto → Order → ℤ → OrderEventEnvelopeV1
placed_event env dto order total = record {
  event_id = env.event_id;
  event_name = "OrderPlaced";
  occurred_at = order.created_at;
  order_id = order.id;
  user_id = dto.user_id;
  total_amount = total;
  currency = "USD";
}

-- Step 8: the two rows of the outbox.
unfoldable pub add_events : Env → CreateOrderDto → Order → ℤ → Action Database ⊤
unfolding add
add_events env dto order total = do
  add env.process_row_id env.now "order" order.id order_process_requested
      (process_message (process_request env order))
  add env.placed_row_id env.now "order" order.id order_placed
      (order_event (placed_event env dto order total))
  pure tt

unfoldable pub insert_items : List OrderItem → Action Database ⊤
insert_items rows = modify (λ d. record d { order_items = d.order_items ++ rows })

-- Steps 2 to 8: everything between the lookup of the key and the commit.
unfoldable pub place : Env → CreateOrderDto → Uuid → Action Database ℤ
place env dto key = do
  rows ← lock_products dto
  (λ d. (check_stock rows dto.items, d))
  order ← insert_order env (new_order env dto key)
  built ← (λ d. (build_items env order.id rows dto.items, d))
  insert_items built
  in_products (take_stock dto.items)
  total ← write_totals order.id
  add_events env dto order total
  pure total

-- Steps 0 and 1.
unfoldable pub find_existing : CreateOrderDto → Uuid → Action Database (Option Order)
find_existing dto key = do
  user_exists ← gets (λ d. any (λ u. u.id == dto.user_id) d.users)
  throw_if (not user_exists) (bad_request (text "User not found"))
  gets (order_by_key dto.user_id key)

-- `{ order: existing, created: false }`; the items are loaded with the order.
abbrev pub reused : Order → Database → Created
reused o d = record {
  order = o;
  items = select (item_of o.id) d.order_items;
  created = false;
  payment = none;
}

abbrev pub payment_request : CreateOrderDto → Uuid → Uuid → ℤ → AuthorizeRequest
payment_request dto key order_id total = record {
  order_id = some order_id;
  user_id = some dto.user_id;
  total = some (record { amount = some total; currency = some "USD" });
  idempotency_key = some key;
}

-- The table of payments after the call: the service has a connection of its own to the same database
-- (src/payment-service/payments.service.ts), so what it commits stays whatever its caller is told.
unfoldable pub payments_left : Env → AuthorizeRequest → Database → List Payment
payments_left env request d =
    if env.is_reached
    then (authorize env.payment_id request
        (record { db = d; tx = none; stranded = 0 })).1.db.payments
    else d.payments

abbrev pub after_authorize : Env → AuthorizeRequest → Session → Session
after_authorize env request s = record s {
  db = record s.db { payments = payments_left env request s.db };
}

-- After the commit: the order is loaded again and its payment is authorized.
unfoldable pub finish : Env → CreateOrderDto → Uuid → ℤ → Action App Created
finish env dto key total = do
  d ← gets (λ w. w.session.db)
  order ←
      or_throw (find (is_order env.order_id) d.orders)
        (plain (text "Could not find any entity of type Order"))
  let ms = or_default env.payments_grpc_timeout_ms 2500
  modify (on_session (after_authorize env (payment_request dto key env.order_id total)))
  payment ← (λ w. (await ms (env.authorize (payment_request dto key env.order_id total)), w))
  modify (λ w. record w { orders_created = w.orders_created + 1 })
  pure (record {
    order = order;
    items = select (item_of env.order_id) d.order_items;
    created = true;
    payment = some payment;
  })

-- The `try` block, by what the lookup of the key found.
unfoldable pub reuse_or_place : Env → CreateOrderDto → Uuid → Option Order → Action App Created
reuse_or_place env dto key (some o) = do
  d ← gets (λ w. w.session.db)
  modify (on_session rollback)
  pure (reused o d)
reuse_or_place env dto key none = do
  total ← in_session (in_tx (place env dto key))
  modify (on_session commit)
  finish env dto key total

abbrev pub has_code : Exception → Bool
has_code (coded c) = true
has_code e = false

abbrev is_timeout : Exception → Bool
is_timeout timeout_error = true
is_timeout e = false

-- `e.code === '23505'`
abbrev is_unique_violation : Exception → Bool
is_unique_violation (coded c) = str_eq c "23505"
is_unique_violation e = false

-- The orders that are committed when the `catch` block looks for the key again.
abbrev committed_by_key : Env → CreateOrderDto → Uuid → App → Option Order
committed_by_key env dto key w =
    find (has_order_key dto.user_id key) (w.session.db.orders ++ env.rivals)

-- The `catch` block, in its order: the two tests that throw stand before the rollback.
unfoldable pub on_error : Env → CreateOrderDto → Uuid → Exception → Action App Created
on_error env dto key e = do
  modify (λ w. record w { orders_failed = w.orders_failed + 1 })
  throw_if (is_timeout e) (gateway_timeout (text "Payments service timeout"))
  throw_if (has_code e) (service_unavailable (text "Payments service unavailable"))
  modify (on_session rollback)
  existing ← gets (λ w. if is_unique_violation e then committed_by_key env dto key w else none)
  d ← gets (λ w. w.session.db)
  elim existing [ some o ↦ pure (reused o d) | none ↦ throw e ]

in_query_runner : Env → CreateOrderDto → Uuid → Action App Created
unfolding find_existing reuse_or_place
in_query_runner env dto key = do
  existing ← in_session (in_tx (find_existing dto key))
  reuse_or_place env dto key existing

unfoldable pub create : Env → CreateOrderDto → Uuid → Action App Created
unfolding in_query_runner on_error
create env dto key = do
  throw_if (length dto.items == 0) (bad_request (text "Order items are required"))
  throw_if (not (length (unique (product_ids dto)) == length (product_ids dto)))
      (bad_request (text "Duplicate productId in order items"))
  modify (on_session start_transaction)
  finally (try_catch (in_query_runner env dto key) (on_error env dto key)) (on_session release)
