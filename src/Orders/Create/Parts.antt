-- ===== src/Orders/Create/Parts.antt =====
-- What a placed order consists of: the effects of steps 2 to 8 of `create`
-- (src/orders/orders.service.ts), table by table.
use e_commerce_order_platfor.Common.{
  ⊤, ◌+◌, refl, ◌≡◌, ◌<◌, false, List, [], ◌∷◌, ◌++◌, Result, ok, arith, bind-eq-ok, then-eq-ok,
  select, mem, any, update_where,
}
use e_commerce_order_platfor.Common.Int.{ℤ, sub_ℕ}
use e_commerce_order_platfor.Database.{
  Payment, Uuid, Order, OrderItem, Product, Database, order_process_requested, order_placed,
  process_message, order_event,
}
use e_commerce_order_platfor.PaymentService.Service.{numeric_bound}
use e_commerce_order_platfor.Outbox.Service.{new_event}
use e_commerce_order_platfor.Orders.Create.Steps.{
  Env, CreateOrderDto, unique, product_ids, check_stock, build_items, take_stock, new_order,
  is_order, item_of, sum_by, line_total, lock_products, insert_order, in_products, has_order_key,
}
use e_commerce_order_platfor.Orders.Create.Flow.{
  payments_left, payment_request, place, insert_items, write_totals, add_events, process_request,
  placed_event,
}

-- The rows that step 2 locks.
abbrev pub locked_rows : CreateOrderDto → Database → List Product
locked_rows dto d = select (λ p. mem p.id (unique (product_ids dto))) d.products

-- The order as step 7 leaves it, by the items that the database then holds for it.
abbrev pub with_totals : List OrderItem → Order → Order
with_totals rows o = record o {
  items_subtotal = sum_by line_total rows;
  items_discount_total = sum_by (λ i. i.discount_amount) rows;
  shipping_amount = 0;
  order_discount_amount = 0;
  total_amount = sub_ℕ (sum_by line_total rows + 0) (sum_by (λ i. i.discount_amount) rows + 0);
}

pub record Parts (env : Env) (dto : CreateOrderDto) (key : Uuid) (d d' : Database) (total : ℤ)
    (left : List Payment) : Type 0 where
  pub built : List OrderItem
  pub checked : check_stock (locked_rows dto d) dto.items ≡ ok tt
  pub building : build_items env env.order_id (locked_rows dto d) dto.items ≡ ok built
  pub key_free : any (has_order_key dto.user_id key) (d.orders ++ env.rivals) ≡ false
  pub taken : take_stock dto.items d.products ≡ (ok tt, d'.products)
  pub items : d'.order_items ≡ d.order_items ++ built
  pub subtotal_fits :
      sum_by line_total (select (item_of env.order_id) d'.order_items) < numeric_bound
  pub counted :
      total
      ≡ (with_totals
          (select (item_of env.order_id) d'.order_items)
          (new_order env dto key)).total_amount
  pub orders :
      d'.orders
      ≡ update_where
          (is_order env.order_id)
          (with_totals (select (item_of env.order_id) d'.order_items))
          (d.orders ++ new_order env dto key ∷ [])
  pub outbox :
      d'.outbox_events
      ≡ (d.outbox_events
          ++ new_event env.process_row_id env.now "order" env.order_id order_process_requested
              (process_message (process_request env (new_order env dto key)))
            ∷ [])
        ++ new_event env.placed_row_id env.now "order" env.order_id order_placed
            (order_event (placed_event env dto (new_order env dto key) total))
          ∷ []
  pub users : d'.users ≡ d.users
  pub payments : d'.payments ≡ left
  pub processed : d'.processed_messages ≡ d.processed_messages

lock_products-eq-ok :
    (dto : CreateOrderDto) (d d' : Database) (rows : List Product)
    → lock_products dto d ≡ (ok rows, d')
    → (rows ≡ locked_rows dto d) × (d' ≡ d)
unfolding lock_products
lock_products-eq-ok dto d d' rows e = ground arith

insert_order-eq-ok :
    (env : Env) (o o' : Order) (d d' : Database)
    → insert_order env o d ≡ (ok o', d')
    → (o' ≡ o)
      × (any (has_order_key o.user_id o.idempotency_key) (d.orders ++ env.rivals) ≡ false)
      × (d' ≡ record d { orders = d.orders ++ o ∷ [] })
unfolding insert_order
insert_order-eq-ok env o o' d d' e = ground arith

write_totals-eq-ok :
    (i : Uuid) (d d' : Database) (total : ℤ) (o : Order)
    → write_totals i d ≡ (ok total, d')
    → let rows = select (item_of i) d.order_items in
      (sum_by line_total rows < numeric_bound)
      × (total ≡ (with_totals rows o).total_amount)
      × (d' ≡ record d { orders = update_where (is_order i) (with_totals rows) d.orders })
unfolding write_totals
write_totals-eq-ok i d d' total o e = ground arith

add_events-eq :
    (env : Env) (dto : CreateOrderDto) (o : Order) (total : ℤ) (d d' : Database) (u : ⊤)
    → add_events env dto o total d ≡ (ok u, d')
    → d' ≡ record d {
      outbox_events =
          (d.outbox_events
            ++ new_event env.process_row_id env.now "order" o.id order_process_requested
                (process_message (process_request env o))
              ∷ [])
          ++ new_event env.placed_row_id env.now "order" o.id order_placed
              (order_event (placed_event env dto o total))
            ∷ [];
    }
unfolding add_events
add_events-eq env dto o total d d' u e = ground arith

-- The steps' effects put together: each variable is the state after one step.
assemble :
    (env : Env) (dto : CreateOrderDto) (key : Uuid) (d d3 d5 d6 d7 d' : Database) (total : ℤ)
    (rows : List Product) (built : List OrderItem) (o : Order)
    → rows ≡ locked_rows dto d
    → check_stock rows dto.items ≡ ok tt
    → o ≡ new_order env dto key
    → any (has_order_key dto.user_id key) (d.orders ++ env.rivals) ≡ false
    → d3 ≡ record d { orders = d.orders ++ new_order env dto key ∷ [] }
    → build_items env o.id rows dto.items ≡ ok built
    → d5 ≡ record d3 { order_items = d3.order_items ++ built }
    → take_stock dto.items d5.products ≡ (ok tt, d6.products)
    → d6 ≡ record d5 { products = d6.products }
    → let items = select (item_of o.id) d6.order_items in
      (sum_by line_total items < numeric_bound)
      → total ≡ (with_totals items (new_order env dto key)).total_amount
      → d7 ≡ record d6 { orders = update_where (is_order o.id) (with_totals items) d6.orders }
      → d' ≡ record d7 {
        outbox_events =
            (d7.outbox_events
              ++ new_event env.process_row_id env.now "order" o.id order_process_requested
                  (process_message (process_request env o))
                ∷ [])
            ++ new_event env.placed_row_id env.now "order" o.id order_placed
                (order_event (placed_event env dto o total))
              ∷ [];
      }
      → Parts env dto key d d' total d.payments
assemble env dto key d d3 d5 d6 d7 d' total rows built o hr hc ho hk h3 hb h5 ht h6 hs hn h7 h8 =
    record {
      built = built;
      checked = rw (← hr) hc;
      building = ground arith;
      key_free = hk;
      taken = ground arith;
      items = ground arith;
      subtotal_fits = ground arith;
      counted = ground arith;
      orders = ground arith;
      outbox = ground arith;
      users = ground arith;
      payments = ground arith;
      processed = ground arith;
    }

combine :
    (env : Env) (dto : CreateOrderDto) (key : Uuid) (d d1 d2 d3 d4 d5 d6 d7 d8 d' : Database)
    (total total' : ℤ) (rows : List Product) (built : List OrderItem) (o : Order) (u2 u5 u6 u8 : ⊤)
    → lock_products dto d ≡ (ok rows, d1)
    → ◌≡◌ {A = Result ⊤ × Database} (check_stock rows dto.items, d1) (ok u2, d2)
    → insert_order env (new_order env dto key) d2 ≡ (ok o, d3)
    → ◌≡◌ {A = Result (List OrderItem) × Database}
        (build_items env o.id rows dto.items, d3)
        (ok built, d4)
    → insert_items built d4 ≡ (ok u5, d5)
    → in_products (take_stock dto.items) d5 ≡ (ok u6, d6)
    → write_totals o.id d6 ≡ (ok total', d7)
    → add_events env dto o total' d7 ≡ (ok u8, d8)
    → ◌≡◌ {A = Result ℤ × Database} (ok total', d8) (ok total, d')
    → Parts env dto key d d' total d.payments
unfolding insert_items in_products
combine env dto key d d1 d2 d3 d4 d5 d6 d7 d8 d' total total' rows built o u2 u5 u6 u8 e1 e2 e3 e4
      e5 e6 e7 e8 e9 =
    let (r1, r2) = lock_products-eq-ok dto d d1 rows e1 in
    let (i1, i2, i3) = insert_order-eq-ok env (new_order env dto key) o d2 d3 e3 in
    let (w1, w2, w3) = write_totals-eq-ok o.id d6 d7 total' (new_order env dto key) e7 in
    let a1 = add_events-eq env dto o total' d7 d8 u8 e8 in
    assemble env dto key d d3 d5 d6 d7 d' total rows built o r1 (ground arith) i1 (ground arith)
      (ground arith) (ground arith) (ground arith) (ground arith) (ground arith) w1 (ground arith)
      w3 (ground arith)

pub place-Parts :
    (env : Env) (dto : CreateOrderDto) (key : Uuid) (d d' : Database) (total : ℤ)
    → place env dto key d ≡ (ok total, d')
    → Parts env dto key d d' total d.payments
unfolding place
place-Parts env dto key d d' total e =
    let (rows, d1, e1, k1) = bind-eq-ok (lock_products dto) _ d d' total e in
    let (u2, d2, e2, k2) =
      then-eq-ok (λ (x : Database). (check_stock rows dto.items, x)) _ d1 d' total k1 in
    let (order, d3, e3, k3) =
      bind-eq-ok (insert_order env (new_order env dto key)) _ d2 d' total k2 in
    let (built, d4, e4, k4) =
      bind-eq-ok (λ (x : Database). (build_items env order.id rows dto.items, x)) _ d3 d' total
        k3 in
    let (u5, d5, e5, k5) = then-eq-ok (insert_items built) _ d4 d' total k4 in
    let (u6, d6, e6, k6) = then-eq-ok (in_products (take_stock dto.items)) _ d5 d' total k5 in
    let (t7, d7, e7, k7) = bind-eq-ok (write_totals order.id) _ d6 d' total k6 in
    let (u8, d8, e8, k8) = then-eq-ok (add_events env dto order t7) _ d7 d' total k7 in
    combine env dto key d d1 d2 d3 d4 d5 d6 d7 d8 d' total t7 rows built order u2 u5 u6 u8 e1 e2 e3
      e4 e5 e6 e7 e8 k8

-- What a call that placed its order leaves: what the steps committed, and the payments that the service left.
abbrev pub Placed : Env → CreateOrderDto → Uuid → Database → Database → ℤ → Type 0
Placed env dto key d d' total =
    (p : Database) × (place env dto key d ≡ (ok total, p))
    × (d'
        ≡ record p { payments = payments_left env (payment_request dto key env.order_id total) p })

pub Placed-Parts :
    (env : Env) (dto : CreateOrderDto) (key : Uuid) (d d' : Database) (total : ℤ)
    (h : Placed env dto key d d' total)
    → Parts env dto key d d' total
        (payments_left env (payment_request dto key env.order_id total) h.0)
Placed-Parts env dto key d d' total (p, placed, same) =
    let parts = place-Parts env dto key d p total placed in
    rw same (record {
      built = parts.built;
      checked = parts.checked;
      building = parts.building;
      key_free = parts.key_free;
      taken = parts.taken;
      items = parts.items;
      subtotal_fits = parts.subtotal_fits;
      counted = parts.counted;
      orders = parts.orders;
      outbox = parts.outbox;
      users = parts.users;
      payments = refl;
      processed = parts.processed;
    })
