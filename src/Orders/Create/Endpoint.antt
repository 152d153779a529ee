-- ===== src/Orders/Create/Endpoint.antt =====
-- The route that creates an order: `create` of src/orders/v1/orders.controller.v1.ts behind
-- `OrderResponseInterceptor` of src/orders/v1/interceptors/order-response-status.interceptor.ts.
use e_commerce_order_platfor.Common.{
  ℕ, ◌≡◌, refl, false, Option, none, some, List, Action, ok, find, inl, inr, arith, Result-cases,
  if◌then◌else◌, pure, ◌>>=◌,
}
use e_commerce_order_platfor.Database.{Uuid, Order, OrderItem}
use e_commerce_order_platfor.Runtime.{App}
use e_commerce_order_platfor.PaymentService.Service.{AuthorizeResponse}
use e_commerce_order_platfor.Orders.Create.Steps.{Env, CreateOrderDto, Created, is_order}
use e_commerce_order_platfor.Orders.Create.Flow.{create}
use e_commerce_order_platfor.Orders.Create.Idempotency.{create_idempotent}

-- The body: the order with its items, and the payment where there is one.
pub data OrderBody : Type 0 where
  with_payment : Order → List OrderItem → AuthorizeResponse → OrderBody
  only_order : Order → List OrderItem → OrderBody

pub record OrderResponse : Type 0 where
  pub status : ℕ
  pub body : OrderBody

abbrev body_of : Created → Option AuthorizeResponse → OrderBody
body_of c (some p) = with_payment c.order c.items p
body_of c none = only_order c.order c.items

-- What the interceptor makes of the result of `create`.
abbrev pub order_response : Created → OrderResponse
order_response c = record { status = if c.created then 201 else 200; body = body_of c c.payment }

abbrev pub order_in : OrderBody → Order × List OrderItem
order_in (with_payment o xs p) = (o, xs)
order_in (only_order o xs) = (o, xs)

-- `POST /orders`
unfoldable pub post_order : Env → CreateOrderDto → Uuid → Action App OrderResponse
post_order env dto key = do c ← create env dto key; pure (order_response c)

post_order_lem :
    (env : Env) (dto : CreateOrderDto) (key : Uuid) (w : App) (r : OrderResponse)
    → (post_order env dto key w).0 ≡ ok r
    → (c : Created) × ((create env dto key w).0 ≡ ok c)
      × (r ≡ order_response c)
      × ((post_order env dto key w).1 ≡ (create env dto key w).1)
unfolding post_order
post_order_lem env dto key w r e = elim (Result-cases (create env dto key w).0) [
  | inl (c, made) ↦ (c, made, ground arith, ground arith)
  | inr (x, failed) ↦ absurd (ground arith)
]

answers :
    (env : Env) (dto : CreateOrderDto) (key : Uuid) (w : App) (c : Created)
    → (create env dto key w).0 ≡ ok c
    → post_order env dto key w ≡ (ok (order_response c), (create env dto key w).1)
unfolding post_order
answers env dto key w c e = ground arith

order_in-body_of :
    (c : Created) (p : Option AuthorizeResponse) → order_in (body_of c p) ≡ (c.order, c.items)
order_in-body_of c none = refl
order_in-body_of c (some p) = refl

-- After a post that was answered with an order, under a fresh id where it is new: a later post of the same
-- request under the same key is answered 200 with the same order and items and without a payment, whatever
-- the first was answered, and leaves the committed database alone.
pub repeated_post_is_ok :
    (env env' : Env) (dto : CreateOrderDto) (key : Uuid) (w : App) (r : OrderResponse)
    → find (is_order env.order_id) w.session.db.orders ≡ none
    → (post_order env dto key w).0 ≡ ok r
    → let w' = (post_order env dto key w).1 in
      ((post_order env' dto key w').0
        ≡ ok (record { status = 200; body = only_order (order_in r.body).0 (order_in r.body).1 }))
      × ((post_order env' dto key w').1.session.db ≡ w'.session.db)
repeated_post_is_ok env env' dto key w r fresh e =
    let (c, made, shape, same) = post_order_lem env dto key w r e in
    let (again, kept) = create_idempotent env env' dto key w c fresh made in
    let first = (create env dto key w).1 in
    let second = answers env' dto key first (record c { created = false; payment = none }) again in
    let inside : order_in r.body ≡ (c.order, c.items) = rw shape (order_in-body_of c c.payment) in
    rw (same, second, inside) (refl, kept)
