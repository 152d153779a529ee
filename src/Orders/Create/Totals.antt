-- ===== src/Orders/Create/Totals.antt =====
-- The order that `create` (src/orders/orders.service.ts) answers with, and what it costs.
use e_commerce_order_platfor.Common.{
  sym, ⊤, ℕ, ◌+◌, ◌*◌, ◌≡◌, ◌≢◌, refl, ◌∙◌, ap, inl, inr, true, Option, none, some, List, [], ◌∷◌,
  ◌++◌, ok, arith, Option-cases, Result-cases, find, select, select-append, find-append_none,
  find-update_where, ◌==◌, update_where,
}
use e_commerce_order_platfor.Common.Int.{ℤ, pos}
use e_commerce_order_platfor.Database.{Uuid, Product, Order, OrderItem, EOrderStatus}
use e_commerce_order_platfor.Runtime.{App}
use e_commerce_order_platfor.Orders.Create.Steps.{
  Env, CreateOrderDto, Created, OrderItemDto, is_product, is_order, item_of, build_items, new_item,
  new_order, sum_by, line_total, order_by_key,
}
use e_commerce_order_platfor.Orders.Create.Flow.{
  create, place, find_existing, finish, reuse_or_place, on_error,
}
use e_commerce_order_platfor.Orders.Create.Parts.{Placed, Placed-Parts, locked_rows, with_totals}

-- The price of the product `k`; nothing where there is no such row.
abbrev pub price_in : Option Product → ℕ
price_in none = 0
price_in (some p) = p.price

-- What the items cost at the prices of the rows.
abbrev pub goods : List Product → List OrderItemDto → ℕ
goods rows [] = 0
goods rows (i ∷ items) =
    price_in (find (is_product i.product_id) rows) * i.quantity + goods rows items

-- An item as the order stores it: the quantity asked for, at the price of the row.
abbrev pub Stores : Uuid → List Product → List OrderItemDto → List OrderItem → Type 0
Stores o rows [] [] = ⊤
Stores o rows [] (b ∷ bs) = ⊥
Stores o rows (i ∷ items) [] = ⊥
Stores o rows (i ∷ items) (b ∷ bs) =
    ((b.product_id ≡ i.product_id)
      × (b.quantity ≡ i.quantity)
      × (b.order_id ≡ o)
      × (find (is_product i.product_id) rows ≢ none)
      × (b.unit_price ≡ price_in (find (is_product i.product_id) rows))
      × (b.discount_amount ≡ 0))
    × Stores o rows items bs

pub build_items-Stores :
    (env : Env) (o : Uuid) (rows : List Product) (items : List OrderItemDto)
    (built : List OrderItem)
    → build_items env o rows items ≡ ok built
    → Stores o rows items built
unfolding build_items
build_items-Stores env o rows [] [] e = tt
build_items-Stores env o rows [] (b ∷ bs) e = cc
build_items-Stores env o rows (i ∷ items) built e =
    elim (Option-cases (find (is_product i.product_id) rows)) [
      | inl missing ↦ absurd (ground arith)
      | inr (p, found) ↦ elim (Result-cases (build_items env o rows items)) [
        | inr (x, failed) ↦ absurd (ground arith)
        | inl (bs, rest) ↦
            let shape : built ≡ new_item env o p.price i ∷ bs = ground arith in
            let stored = build_items-Stores env o rows items bs rest in
            rw (shape, found) ((refl, refl, refl, (λ none_some. cc), refl, refl), stored)
      ]
    ]

pub Stores-total :
    (o : Uuid) (rows : List Product) (items : List OrderItemDto) (built : List OrderItem)
    → Stores o rows items built
    → (select (item_of o) built ≡ built)
      × (sum_by line_total built ≡ goods rows items)
      × (sum_by (λ i. i.discount_amount) built ≡ 0)
Stores-total o rows [] [] h = (refl, refl, refl)
Stores-total o rows [] (b ∷ bs) h = absurd h
Stores-total o rows (i ∷ items) [] h = absurd h
Stores-total o rows (i ∷ items) (b ∷ bs) h =
    let (all, total, free) = Stores-total o rows items bs h.1 in
    (ground arith, ground arith, ground arith)

-- What a call that created an order has done.
pub created_lem :
    (env : Env) (dto : CreateOrderDto) (key : Uuid) (w : App) (c : Created)
    → (create env dto key w).0 ≡ ok c
    → c.created ≡ true
    → let d' = (create env dto key w).1.session.db in
      (total : ℤ) × Placed env dto key w.session.db d' total
      × (find (is_order env.order_id) d'.orders ≡ some c.order)
      × (c.items ≡ select (item_of env.order_id) d'.order_items)
unfolding create find_existing reuse_or_place on_error finish
created_lem env dto key w c e made =
    elim (Option-cases (order_by_key dto.user_id key w.session.db)) [
      | inr (o, found) ↦ absurd (ground arith)
      | inl free ↦ elim (Result-cases (place env dto key w.session.db).0) [
        | inr (x, failed) ↦ absurd (ground arith)
        | inl (total, placed) ↦
            let p = (place env dto key w.session.db).1 in
            let steps : place env dto key w.session.db ≡ (ok total, p) = ground arith in
            elim (Option-cases (find (is_order env.order_id) p.orders)) [
              | inl missing ↦ absurd (ground arith)
              | inr (o, there) ↦ (total, (p, steps, ground arith), ground arith, ground arith)
            ]
      ]
    ]

-- The order as step 7 leaves it.
abbrev pub priced_order : Env → CreateOrderDto → Uuid → ℕ → Order
priced_order env dto key subtotal = record {
  id = env.order_id;
  status = EOrderStatus.pending;
  items_subtotal = subtotal;
  items_discount_total = 0;
  shipping_amount = 0;
  order_discount_amount = 0;
  total_amount = pos subtotal;
  idempotency_key = key;
  user_id = dto.user_id;
  status_version = 0;
  created_at = env.now;
  updated_at = env.now;
  processed_at = none;
}

-- The new order is what a search by its fresh id finds.
pub find_new_order :
    (i : Uuid) (f : Order → Order) (os : List Order) (o : Order)
    → ((x : Order) → (f x).id ≡ x.id)
    → o.id ≡ i
    → find (is_order i) os ≡ none
    → find (is_order i) (update_where (is_order i) f (os ++ o ∷ [])) ≡ some (f o)
find_new_order i f os o same id fresh =
    let seen =
      find-update_where (is_order i) (is_order i) f (λ x. ap (λ (n : ℕ). n == i) (same x))
        (os ++ o ∷ []) in
    ground (arith, find-append_none (is_order i) os (o ∷ []) fresh)

priced :
    (built : List OrderItem) (env : Env) (dto : CreateOrderDto) (key : Uuid) (n : ℕ)
    → sum_by line_total built ≡ n
    → sum_by (λ i. i.discount_amount) built ≡ 0
    → with_totals built (new_order env dto key) ≡ priced_order env dto key n
priced built env dto key n cost free = ground arith

pub same_some : (a b : Order) → some a ≡ some b → a ≡ b
same_some a b h = cc

-- Under a fresh order id, a call that created an order answers with an order that is pending, at
-- version 0, owned by the user under the key; its items are those asked for, at the prices of the
-- products as they were; its total is what they cost together, with no discount and no shipping.
pub created_order :
    (env : Env) (dto : CreateOrderDto) (key : Uuid) (w : App) (c : Created)
    → find (is_order env.order_id) w.session.db.orders ≡ none
    → select (item_of env.order_id) w.session.db.order_items ≡ []
    → (create env dto key w).0 ≡ ok c
    → c.created ≡ true
    → let rows = locked_rows dto w.session.db in
      (c.order ≡ priced_order env dto key (goods rows dto.items))
      × Stores env.order_id rows dto.items c.items
created_order env dto key w c fresh no_items e made =
    let (total, placed, found, loaded) = created_lem env dto key w c e made in
    let d' = (create env dto key w).1.session.db in
    let parts = Placed-Parts env dto key w.session.db d' total placed in
    let rows = locked_rows dto w.session.db in
    let stores = build_items-Stores env env.order_id rows dto.items parts.built parts.building in
    let (all, cost, free) = Stores-total env.order_id rows dto.items parts.built stores in
    let mine : select (item_of env.order_id) d'.order_items ≡ parts.built =
      rw
        (
          parts.items,
          select-append (item_of env.order_id) w.session.db.order_items parts.built,
          no_items,
        )
        all in
    let order' = λ (bs : List OrderItem).
      find_new_order env.order_id (with_totals bs) w.session.db.orders (new_order env dto key)
        (λ x. refl) refl fresh in
    let located : find (is_order env.order_id) d'.orders
        ≡ some (with_totals parts.built (new_order env dto key)) =
      rw (parts.orders, mine) (order' parts.built) in
    (
      same_some c.order (with_totals parts.built (new_order env dto key)) (sym found ∙ located)
          ∙ priced parts.built env dto key (goods rows dto.items) cost free,
      rw (loaded, mine) stores,
    )
