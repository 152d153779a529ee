-- ===== src/Orders/Create/Ledger.antt =====
-- The stock and the outbox over a whole call of `create` (src/orders/orders.service.ts).
use e_commerce_order_platfor.Common.{
  ◌+◌, ◌≡◌, ap, inl, inr, ◌⊎◌, List, [], ◌∷◌, ◌++◌, ok, arith, find, length, length-append,
  append_assoc, ◌∙◌, length-update_where, select, none, some, false, true, Bool, not, ◌&&◌, ◌==◌,
  any, any-find, refl, Bool-cases, Option-cases, update_where, if◌then◌else◌,
}
use e_commerce_order_platfor.Common.Int.{ℤ, pos, leb_ℤ}
use e_commerce_order_platfor.Database.{
  Uuid, Order, Product, Payment, EPaymentStatus, OutboxEvent, EOutboxEventStatus, Database,
  order_process_requested, order_placed, process_message, order_event,
}
use e_commerce_order_platfor.Runtime.{App}
use e_commerce_order_platfor.PaymentService.Service.{
  authorize, validate_authorize_request, save_payment, has_key, numeric_bound,
}
use e_commerce_order_platfor.Orders.Create.Steps.{
  Env, OrderItemDto, take_stock, item_of, is_order, CreateOrderDto, is_product, new_order,
}
use e_commerce_order_platfor.Orders.Create.Flow.{create, payments_left, payment_request}
use e_commerce_order_platfor.Orders.Create.Parts.{with_totals, place-Parts, Placed-Parts}
use e_commerce_order_platfor.Orders.Create.Stock.{ordered, HasUniqueIds, Takes, take_stock-Takes}
use e_commerce_order_platfor.Orders.Create.Atomicity.{create_commits}

stock_taken :
    (k : Uuid) (items : List OrderItemDto) (ps ps' : List Product)
    → take_stock items ps ≡ (ok tt, ps')
    → HasUniqueIds ps
    → Takes (ordered k items) (find (is_product k) ps) (find (is_product k) ps')
stock_taken k items ps ps' e d =
    let after : (take_stock items ps).1 ≡ ps' = ap (λ r. r.1) e in
    rw (← after) (take_stock-Takes k items ps d (ap (λ r. r.0) e))

-- However a call of `create` ends, where the ids of the products are distinct: either the database is
-- as before the call, or every product has lost exactly the quantity that the request's items order of
-- it from its stock, all its other columns kept, and no id of a product is new or gone.
pub create_moves_stock :
    (env : Env) (dto : CreateOrderDto) (key : Uuid) (w : App)
    → HasUniqueIds w.session.db.products
    → let d = w.session.db in
      let d' = (create env dto key w).1.session.db in
      (d' ≡ d)
      ⊎ ((k : Uuid)
          → Takes
              (ordered k dto.items)
              (find (is_product k) d.products)
              (find (is_product k) d'.products))
create_moves_stock env dto key w unique_ids = elim (create_commits env dto key w) [
  | inl same ↦ inl same
  | inr (total, placed) ↦
      let d = w.session.db in
      let d' = (create env dto key w).1.session.db in
      let parts = Placed-Parts env dto key d d' total placed in
      inr (λ k. stock_taken k dto.items d.products d'.products parts.taken unique_ids)
]

abbrev pub request_of : Env → Uuid → OutboxEvent
request_of env row_id = record {
  id = row_id;
  aggregate_type = "order";
  aggregate_id = env.order_id;
  event_type = order_process_requested;
  payload = process_message (record {
    message_id = env.message_id;
    order_id = env.order_id;
    created_at = env.now;
    attempt = some 1;
    simulate = false;
  });
  status = EOutboxEventStatus.pending;
  attempts = 0;
  next_retry_at = some env.now;
  last_error = none;
  sent_at = none;
  created_at = env.now;
}

abbrev pub announcement_of : Env → Uuid → ℤ → Uuid → OutboxEvent
announcement_of env user_id total row_id = record {
  id = row_id;
  aggregate_type = "order";
  aggregate_id = env.order_id;
  event_type = order_placed;
  payload = order_event (record {
    event_id = env.event_id;
    event_name = "OrderPlaced";
    occurred_at = env.now;
    order_id = env.order_id;
    user_id = user_id;
    total_amount = total;
    currency = "USD";
  });
  status = EOutboxEventStatus.pending;
  attempts = 0;
  next_retry_at = some env.now;
  last_error = none;
  sent_at = none;
  created_at = env.now;
}

abbrev pub payment_of : Env → Uuid → ℤ → Payment
payment_of env key total = record {
  id = env.payment_id;
  status = EPaymentStatus.pending;
  order_id = env.order_id;
  paid_at = none;
  paid_amount = total;
  idempotency_key = key;
}

any-placed :
    (i : Uuid) (f : Order → Order) (os : List Order) (o : Order)
    → ((x : Order) → (f x).id ≡ x.id)
    → o.id ≡ i
    → any (is_order i) (update_where (is_order i) f (os ++ o ∷ [])) ≡ true
any-placed i f [] o same mine =
    let first : is_order i o ≡ true = ground arith in
    let kept : is_order i (f o) ≡ true = ground (arith, same o) in rw (first, kept) refl
any-placed i f (x ∷ os) o same mine = elim (Bool-cases (is_order i x)) [
  | inl hit ↦ let kept : is_order i (f x) ≡ true = ground (arith, same x) in rw (hit, kept) refl
  | inr miss ↦ rw (miss, miss) (any-placed i f os o same mine)
]

any-absent : (p : Payment → Bool) (xs : List Payment) → find p xs ≡ none → any p xs ≡ false
any-absent p [] h = refl
any-absent p (x ∷ xs) h = ground (arith, any-absent p xs)

-- Whether the payments service makes a payment of the order: it got the call, the total is positive and fits
-- its column, and the order has no payment under the key.
abbrev pub is_charged : Env → Uuid → ℤ → List Payment → Bool
is_charged env key total ps =
    env.is_reached
    && not (leb_ℤ total (pos 0))
    && not (leb_ℤ (pos numeric_bound) total)
    && not (any (λ p. p.order_id == env.order_id && p.idempotency_key == key) ps)

payments_left_lem :
    (env : Env) (dto : CreateOrderDto) (key : Uuid) (total : ℤ) (d : Database)
    → any (is_order env.order_id) d.orders ≡ true
    → payments_left env (payment_request dto key env.order_id total) d ≡ (
        if is_charged env key total d.payments
        then d.payments ++ payment_of env key total ∷ []
        else d.payments)
unfolding payments_left authorize validate_authorize_request save_payment
payments_left_lem env dto key total d here = elim (Bool-cases env.is_reached) [
  | inr missed ↦ rw missed refl
  | inl reached ↦ elim (Option-cases (find (has_key env.order_id key) d.payments)) [
    | inr (p, found) ↦
        ground (arith, reached, found, any-find (has_key env.order_id key) d.payments p found)
    | inl free ↦
        ground (arith, reached, free, here, any-absent (has_key env.order_id key) d.payments free)
  ]
]

-- However a call of `create` ends: either the database is as before the call, or there is exactly
-- one order more, and exactly two outbox events are new, both still to be sent and with no attempt yet: a
-- request to process this order, its attempt the first and with no error to simulate, and the announcement
-- that it was placed by the user for some total in USD; there is one payment more, of this order, under the same key,
-- for the same total, authorized and not paid yet, exactly where the payments service got the call, the
-- total is positive and fits its column and the order had no payment under the key, and otherwise the payments
-- are as before; and the record of the processed messages is as before.
pub create_announces :
    (env : Env) (dto : CreateOrderDto) (key : Uuid) (w : App)
    → let d = w.session.db in
      let d' = (create env dto key w).1.session.db in
      (d' ≡ d)
      ⊎ ((total : ℤ) × (length d'.orders ≡ length d.orders + 1)
          × (d'.outbox_events ≡ (
              d.outbox_events
              ++ request_of env env.process_row_id
                ∷ announcement_of env dto.user_id total env.placed_row_id
                ∷ []))
          × (d'.payments ≡ (
              if is_charged env key total d.payments
              then d.payments ++ payment_of env key total ∷ []
              else d.payments))
          × (d'.processed_messages ≡ d.processed_messages))
create_announces env dto key w = elim (create_commits env dto key w) [
  | inl same ↦ inl same
  | inr (total, placed) ↦
      let (p, committed, left) = placed in
      let d = w.session.db in
      let d' = (create env dto key w).1.session.db in
      let parts = Placed-Parts env dto key d d' total placed in
      let before : p.payments ≡ d.payments =
        (place-Parts env dto key d p total committed).payments in
      let here : any (is_order env.order_id) p.orders ≡ true =
        rw (place-Parts env dto key d p total committed).orders (
          any-placed env.order_id (with_totals (select (item_of env.order_id) p.order_items))
            d.orders (new_order env dto key) (λ x. refl) refl) in
      let rows = select (item_of env.order_id) d'.order_items in
      let one_more : length d'.orders ≡ length d.orders + 1 = rw parts.orders (
        ground (
          arith,
          length-update_where (is_order env.order_id) (with_totals rows)
              (d.orders ++ new_order env dto key ∷ []),
          length-append d.orders (new_order env dto key ∷ []),
        )) in
      inr (
        total,
        one_more,
        parts.outbox
            ∙ append_assoc d.outbox_events (request_of env env.process_row_id ∷ [])
                (announcement_of env dto.user_id total env.placed_row_id ∷ []),
        rw (parts.payments, ← before) (payments_left_lem env dto key total p here),
        parts.processed,
      )
]
