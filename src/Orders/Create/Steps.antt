-- ===== src/Orders/Create/Steps.antt =====
-- `OrdersService.create` of src/orders/orders.service.ts. Quantities are whole numbers: of a fraction
-- `BigInt` would throw. What PostgreSQL, node and the remote service choose (ids, the time, rows that
-- other transactions commit meanwhile, the reply of the payments service) is in `Env`.
use e_commerce_order_platfor.Common.{
  ⊤, ℕ, ◌+◌, ◌-◌, ◌*◌, Bool, not, ◌&&◌, Option, none, some, List, [], ◌∷◌, ◌++◌, map, Action, pure,
  throw_if, gets, modify, ◌>>=◌, ◌>>◌, Result, ok, err, text, about, Exception, bad_request,
  conflict, coded, find, any, select, mem, length, update_where, ◌==◌, leb, ltb, if◌then◌else◌,
}
use e_commerce_order_platfor.Common.Int.{pos}
use e_commerce_order_platfor.Database.{Uuid, EOrderStatus, Product, Order, OrderItem, Database}
use e_commerce_order_platfor.Runtime.{Reply}
use e_commerce_order_platfor.PaymentService.Service.{AuthorizeRequest, AuthorizeResponse}

pub record OrderItemDto : Type 0 where
  pub product_id : Uuid
  pub quantity : ℕ

-- An absent `items` is the empty list: both are refused alike.
pub record CreateOrderDto : Type 0 where
  pub user_id : Uuid
  pub items : List OrderItemDto

pub record Env : Type 0 where
  pub order_id : Uuid
  pub item_id : Uuid → Uuid
  pub message_id : Uuid
  pub event_id : Uuid
  pub process_row_id : Uuid
  pub placed_row_id : Uuid
  pub now : ℕ
  -- Orders that other transactions commit between the lookup of the key and the insert.
  pub rivals : List Order
  pub payments_grpc_timeout_ms : Option ℕ
  -- The call of the payments service: how it ends for the caller, whether it reaches the service, and the id
  -- that the database picks for a payment there.
  pub authorize : AuthorizeRequest → Reply AuthorizeResponse
  pub is_reached : Bool
  pub payment_id : Uuid

pub record Created : Type 0 where
  pub order : Order
  pub items : List OrderItem
  pub created : Bool
  pub payment : Option AuthorizeResponse

-- `[...new Set(ids)]`
abbrev pub unique : List Uuid → List Uuid
unique [] = []
unique (x ∷ xs) = x ∷ select (λ y. not (y == x)) (unique xs)

abbrev pub product_ids : CreateOrderDto → List Uuid
product_ids dto = map (λ i. i.product_id) dto.items

abbrev pub is_product : Uuid → Product → Bool
is_product k p = p.id == k

abbrev pub is_order : Uuid → Order → Bool
is_order k o = o.id == k

abbrev pub item_of : Uuid → OrderItem → Bool
item_of k i = i.order_id == k

-- `where: { idempotencyKey, user: { id: dto.userId } }`
abbrev pub has_order_key : Uuid → Uuid → Order → Bool
has_order_key user key o = o.idempotency_key == key && o.user_id == user

abbrev pub order_by_key : Uuid → Uuid → Database → Option Order
order_by_key user key d = find (has_order_key user key) d.orders

abbrev insufficient_stock : Uuid → Exception
insufficient_stock i = conflict (about "Insufficient stock for product " i "")

-- The loop that compares the locked rows with the items; the rows are found by id.
unfoldable pub check_stock : List Product → List OrderItemDto → Result ⊤
check_stock rows [] = ok tt
check_stock rows (item ∷ items) =
    let rest = check_stock rows items in
    elim (find (is_product item.product_id) rows) [
      | none ↦ err (bad_request (text "Product not found"))
      | some p ↦
          if ltb p.stock item.quantity then err (insufficient_stock item.product_id) else rest
    ]

-- Steps 2: the rows of the products, locked until the transaction ends.
unfoldable pub lock_products : CreateOrderDto → Action Database (List Product)
lock_products dto = do
  let unique_ids = unique (product_ids dto)
  rows ← gets (λ d. select (λ p. mem p.id unique_ids) d.products)
  throw_if (not (length rows == length unique_ids)) (bad_request (text "Some products not found"))
  pure rows

abbrev pub new_order : Env → CreateOrderDto → Uuid → Order
new_order env dto key = record {
  id = env.order_id;
  status = EOrderStatus.pending;
  items_subtotal = 0;
  items_discount_total = 0;
  shipping_amount = 0;
  order_discount_amount = 0;
  total_amount = pos 0;
  idempotency_key = key;
  user_id = dto.user_id;
  status_version = 0;
  created_at = env.now;
  updated_at = env.now;
  processed_at = none;
}

-- Step 3. The table's unique key is (user_id, idempotency_key).
unfoldable pub insert_order : Env → Order → Action Database Order
insert_order env order = do
  twin ←
      gets (λ d. any (has_order_key order.user_id order.idempotency_key) (d.orders ++ env.rivals))
  throw_if twin (coded "23505")
  modify (λ d. record d { orders = d.orders ++ order ∷ [] })
  pure order

abbrev pub new_item : Env → Uuid → ℕ → OrderItemDto → OrderItem
new_item env order_id price i = record {
  id = env.item_id i.product_id;
  unit_price = price;
  discount_amount = 0;
  quantity = i.quantity;
  order_id = order_id;
  product_id = i.product_id;
}

-- The `map` of step 4, which throws where a row is missing.
unfoldable pub build_items : Env → Uuid → List Product → List OrderItemDto → Result (List OrderItem)
build_items env order_id rows [] = ok []
build_items env order_id rows (i ∷ items) =
    let rest = build_items env order_id rows items in
    elim (find (is_product i.product_id) rows) [
      | none ↦ err (bad_request (text "Product not found"))
      | some p ↦ elim rest [
        | ok built ↦ ok (new_item env order_id p.price i ∷ built)
        | err e ↦ err e
      ]
    ]

abbrev pub has_stock : Uuid → ℕ → Product → Bool
has_stock k q p = p.id == k && leb q p.stock

abbrev pub less_stock : ℕ → Product → Product
less_stock q p = record p { stock = p.stock - q }

-- Step 5: `UPDATE … WHERE id = $2 AND stock >= $1 RETURNING id` for each item.
unfoldable pub take_stock : List OrderItemDto → Action (List Product) ⊤
take_stock [] ps = (ok tt, ps)
take_stock (i ∷ items) ps =
    let rest =
      take_stock items
        (update_where (has_stock i.product_id i.quantity) (less_stock i.quantity) ps) in
    if any (has_stock i.product_id i.quantity) ps
    then rest
    else (err (insufficient_stock i.product_id), ps)

unfoldable pub in_products : {A : Type 0} → Action (List Product) A → Action Database A
in_products m d = let (r, ps) = m d.products in (r, record d { products = ps })

-- SUM over rows.
abbrev pub sum_by : {A : Type 0} → (A → ℕ) → List A → ℕ
sum_by f [] = 0
sum_by f (x ∷ xs) = f x + sum_by f xs

abbrev pub line_total : OrderItem → ℕ
line_total i = i.unit_price * i.quantity
