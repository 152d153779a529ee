-- ===== src/Orders/Create/Responses.antt =====
-- When `create` (src/orders/orders.service.ts) answers with what: acceptance, the failures of the
-- payments service, and the race for a key.
use e_commerce_order_platfor.Common.{
  ℕ, String, ◌+◌, ◌≡◌, ◌<◌, ◌⊎◌, refl, ◌∙◌, ap, inl, inr, true, false, none, some, List, [], ◌∷◌,
  ◌++◌, ok, err, arith, Bool-cases, Option-cases, find, any, select, select-append, length, ◌==◌,
  text, coded, timeout_error, service_unavailable, gateway_timeout, Exception, ltb, or_default,
}
use e_commerce_order_platfor.Common.Int.{ℤ, pos}
use e_commerce_order_platfor.Database.{Uuid, Order, OrderItem, Product, Database}
use e_commerce_order_platfor.Runtime.{App, Reply, await, answer, refused, silent}
use e_commerce_order_platfor.PaymentService.Service.{AuthorizeResponse, numeric_bound}
use e_commerce_order_platfor.Orders.Create.Steps.{
  Env, CreateOrderDto, OrderItemDto, Created, is_order, is_product, item_of, new_order,
  order_by_key, has_order_key, unique, product_ids, check_stock, build_items, new_item,
  lock_products, insert_order, in_products,
}
use e_commerce_order_platfor.Orders.Create.Flow.{
  create, place, find_existing, finish, reuse_or_place, on_error, write_totals, add_events,
  insert_items, payment_request, payments_left,
}
use e_commerce_order_platfor.Orders.Create.Parts.{place-Parts, locked_rows, with_totals}
use e_commerce_order_platfor.Orders.Create.Guard.{final_guard_passes}
use e_commerce_order_platfor.Orders.Create.Totals.{
  goods, build_items-Stores, Stores-total, find_new_order,
}
use e_commerce_order_platfor.Orders.Create.Idempotency.{Admits}

build_items_accepts :
    (env : Env) (o : Uuid) (rows : List Product) (items : List OrderItemDto)
    → check_stock rows items ≡ ok tt
    → (built : List OrderItem) × (build_items env o rows items ≡ ok built)
unfolding build_items check_stock
build_items_accepts env o rows [] e = ([], refl)
build_items_accepts env o rows (i ∷ items) e =
    elim (Option-cases (find (is_product i.product_id) rows)) [
      | inl missing ↦ absurd (ground arith)
      | inr (p, found) ↦
          let (built, rest) = build_items_accepts env o rows items (ground arith) in
          (new_item env o p.price i ∷ built, ground arith)
    ]

-- The steps of the transaction succeed on what its checks let through.
place_accepts :
    (env : Env) (dto : CreateOrderDto) (key : Uuid) (d : Database)
    → let rows = locked_rows dto d in
      (length rows == length (unique (product_ids dto))) ≡ true
      → check_stock rows dto.items ≡ ok tt
      → (length (unique (product_ids dto))) ≡ length (product_ids dto)
      → any (has_order_key dto.user_id key) (d.orders ++ env.rivals) ≡ false
      → select (item_of env.order_id) d.order_items ≡ []
      → goods rows dto.items < numeric_bound
      → (place env dto key d).0 ≡ ok (pos (goods rows dto.items))
unfolding place lock_products insert_order in_products insert_items write_totals add_events
place_accepts env dto key d complete checked distinct free no_items fits =
    let rows = locked_rows dto d in
    let (built, building) = build_items_accepts env env.order_id rows dto.items checked in
    let (all, cost, discount) =
      Stores-total env.order_id rows dto.items built
        (build_items-Stores env env.order_id rows dto.items built building) in
    let mine : select (item_of env.order_id) (d.order_items ++ built) ≡ built =
      rw (select-append (item_of env.order_id) d.order_items built, no_items) all in
    let taken = final_guard_passes dto d distinct checked in ground arith

-- After the commit: the placed order is loaded and its payment requested.
committed_lem :
    (env : Env) (dto : CreateOrderDto) (key : Uuid) (w : App) (total : ℤ) (d' : Database)
    (o : Order)
    → Admits dto w.session.db
    → order_by_key dto.user_id key w.session.db ≡ none
    → place env dto key w.session.db ≡ (ok total, d')
    → find (is_order env.order_id) d'.orders ≡ some o
    → let reply =
        await
          (or_default env.payments_grpc_timeout_ms 2500)
          (env.authorize (payment_request dto key env.order_id total)) in
      ((create env dto key w).1.session.db ≡ record d' {
        payments = payments_left env (payment_request dto key env.order_id total) d';
      })
      × ((p : AuthorizeResponse)
          → reply ≡ ok p
          → (create env dto key w).0
            ≡ ok (record {
              order = o;
              items = select (item_of env.order_id) d'.order_items;
              created = true;
              payment = some p;
            }))
      × (reply ≡ err timeout_error
          → (create env dto key w).0 ≡ err (gateway_timeout (text "Payments service timeout")))
      × ((code : String)
          → reply ≡ err (coded code)
          → (create env dto key w).0
            ≡ err (service_unavailable (text "Payments service unavailable")))
unfolding create find_existing reuse_or_place finish on_error
committed_lem env dto key w total d' o admits free placed found =
    (ground arith, λ p h. ground arith, λ h. ground arith, λ c h. ground arith)

-- The order under a fresh id, after the steps.
placed_order_found :
    (env : Env) (dto : CreateOrderDto) (key : Uuid) (d d' : Database) (total : ℤ)
    → find (is_order env.order_id) d.orders ≡ none
    → place env dto key d ≡ (ok total, d')
    → (o : Order) × (find (is_order env.order_id) d'.orders ≡ some o)
placed_order_found env dto key d d' total fresh placed =
    let parts = place-Parts env dto key d d' total placed in
    let f = with_totals (select (item_of env.order_id) d'.order_items) in
    (
      f (new_order env dto key),
      rw (parts.orders)
          (find_new_order env.order_id f d.orders (new_order env dto key) (λ x. refl) refl fresh),
    )

-- A request is accepted, with its payment authorized, where: it has items, none twice; its user
-- exists; its key is not used, nor taken meanwhile; all products are there with enough stock; the id
-- of the order is fresh; the subtotal fits its column; the payments service answers in time.
pub create_accepts :
    (env : Env) (dto : CreateOrderDto) (key : Uuid) (w : App) (t : ℕ) (p : AuthorizeResponse)
    → Admits dto w.session.db
    → order_by_key dto.user_id key w.session.db ≡ none
    → any (has_order_key dto.user_id key) (w.session.db.orders ++ env.rivals) ≡ false
    → length (locked_rows dto w.session.db) ≡ length (unique (product_ids dto))
    → check_stock (locked_rows dto w.session.db) dto.items ≡ ok tt
    → find (is_order env.order_id) w.session.db.orders ≡ none
    → select (item_of env.order_id) w.session.db.order_items ≡ []
    → goods (locked_rows dto w.session.db) dto.items < numeric_bound
    → env.authorize (
        payment_request dto key env.order_id (pos (goods (locked_rows dto w.session.db) dto.items)))
      ≡ answer t p
    → t < or_default env.payments_grpc_timeout_ms 2500
    → (c : Created) × ((create env dto key w).0 ≡ ok c) × (c.created ≡ true) × (c.payment ≡ some p)
create_accepts env dto key w t p admits free unrivalled complete checked fresh no_items fits
      answered in_time =
    let d = w.session.db in
    let total = pos (goods (locked_rows dto d) dto.items) in
    let placed =
      place_accepts env dto key d (ground arith) checked (ground arith) unrivalled no_items fits in
    let placed' : place env dto key d ≡ (ok total, (place env dto key d).1) = ground arith in
    let (o, found) = placed_order_found env dto key d (place env dto key d).1 total fresh placed' in
    let (kept, accepted, timed_out, refusal) =
      committed_lem env dto key w total (place env dto key d).1 o admits free placed' found in
    (
      record {
        order = o;
        items = select (item_of env.order_id) (place env dto key d).1.order_items;
        created = true;
        payment = some p;
      },
      accepted p (rw answered (ground arith)),
      refl,
      refl,
    )

-- What the client is told where the payment fails.
abbrev pub payment_failure : Exception → Exception
payment_failure timeout_error = gateway_timeout (text "Payments service timeout")
payment_failure e = service_unavailable (text "Payments service unavailable")

await-eq-err :
    (ms : ℕ) (r : Reply AuthorizeResponse) (x : Exception)
    → await ms r ≡ err x
    → (x ≡ timeout_error) ⊎ ((c : String) × (x ≡ coded c))
await-eq-err ms (answer t a) x e = inl (ground arith)
await-eq-err ms (refused t c) x e = elim (Bool-cases (ltb t ms)) [
  | inl early ↦ inr (c, ground arith)
  | inr late ↦ inl (ground arith)
]
await-eq-err ms silent x e = inl (ground arith)

-- Where the steps succeeded and then the payment fails, by a timeout or by an error of the service,
-- the client is told so with 504 or 503, and the order stays committed all the same: the database is as the
-- steps left it, but for the payments, which are as the service left them.
pub payment_failure_keeps_order :
    (env : Env) (dto : CreateOrderDto) (key : Uuid) (w : App) (total : ℤ) (d' : Database)
    (x : Exception)
    → Admits dto w.session.db
    → order_by_key dto.user_id key w.session.db ≡ none
    → find (is_order env.order_id) w.session.db.orders ≡ none
    → place env dto key w.session.db ≡ (ok total, d')
    → await
        (or_default env.payments_grpc_timeout_ms 2500)
        (env.authorize (payment_request dto key env.order_id total))
      ≡ err x
    → ((create env dto key w).0 ≡ err (payment_failure x))
      × ((create env dto key w).1.session.db ≡ record d' {
        payments = payments_left env (payment_request dto key env.order_id total) d';
      })
payment_failure_keeps_order env dto key w total d' x admits free fresh placed failed =
    let (o, found) = placed_order_found env dto key w.session.db d' total fresh placed in
    let (kept, accepted, timed_out, refusal) =
      committed_lem env dto key w total d' o admits free placed found in
    elim (await-eq-err (or_default env.payments_grpc_timeout_ms 2500)
      (env.authorize (payment_request dto key env.order_id total)) x failed) [
        | inl e ↦ (rw e (timed_out (failed ∙ ap (λ (y : Exception). err y) e)), kept)
        | inr (c, e) ↦ (rw e (refusal c (failed ∙ ap (λ (y : Exception). err y) e)), kept)
      ]

-- The race that the `catch` block is written for: where another transaction commits an order under
-- the same key after the lookup, the request is not answered with that order. It is told that the
-- payments service is unavailable, and the connection goes back with its transaction still open.
pub race_is_unavailable :
    (env : Env) (dto : CreateOrderDto) (key : Uuid) (w : App)
    → Admits dto w.session.db
    → order_by_key dto.user_id key w.session.db ≡ none
    → length (locked_rows dto w.session.db) ≡ length (unique (product_ids dto))
    → check_stock (locked_rows dto w.session.db) dto.items ≡ ok tt
    → any (has_order_key dto.user_id key) (w.session.db.orders ++ env.rivals) ≡ true
    → let (r, w') = create env dto key w in
      (r ≡ err (service_unavailable (text "Payments service unavailable")))
      × (w'.session.db ≡ w.session.db)
      × (w'.session.stranded ≡ w.session.stranded + 1)
unfolding create find_existing reuse_or_place on_error place lock_products insert_order
race_is_unavailable env dto key w admits free complete checked rival =
    (ground arith, ground arith, ground arith)
