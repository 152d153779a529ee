-- ===== src/Orders/Deletion.antt =====
-- Deleting an order that `create` made (src/orders/orders.service.ts).
use e_commerce_order_platfor.Common.{
  ◌≡◌, refl, ap, sym, ◌∙◌, true, false, none, some, List, [], ◌∷◌, ok, err, coded, arith, inl, inr,
  Bool-cases, find, any, select, length, ◌==◌,
}
use e_commerce_order_platfor.Database.{Uuid, Product, Order, OrderItem}
use e_commerce_order_platfor.Runtime.{App}
use e_commerce_order_platfor.Orders.Create.Steps.{
  Env, CreateOrderDto, Created, OrderItemDto, is_order, item_of,
}
use e_commerce_order_platfor.Orders.Create.Flow.{create}
use e_commerce_order_platfor.Orders.Create.Parts.{locked_rows}
use e_commerce_order_platfor.Orders.Create.Totals.{Stores, created_lem, created_order}
use e_commerce_order_platfor.Orders.Create.Idempotency.{ok-Admits}
use e_commerce_order_platfor.Orders.Manage.{delete}
use e_commerce_order_platfor.Orders.Manage as Manage

any-select :
    (i : Uuid) (xs : List OrderItem) (y : OrderItem) (ys : List OrderItem)
    → select (item_of i) xs ≡ y ∷ ys
    → any (Manage.item_of i) xs ≡ true
any-select i [] y ys e = absurd (cc)
any-select i (x ∷ xs) y ys e = elim (Bool-cases (item_of i x)) [
  | inl hit ↦ ground arith
  | inr miss ↦ ground (arith, any-select i xs y ys (ground arith))
]

any-found :
    (i : Uuid) (os : List Order) (o : Order)
    → find (is_order i) os ≡ some o
    → any (Manage.has_id i) os ≡ true
any-found i [] o e = absurd (cc)
any-found i (x ∷ os) o e = ground (arith, any-found i os o)

stored_item :
    (o : Uuid) (items : List OrderItemDto) (rows : List Product) (built : List OrderItem)
    → (length items == 0) ≡ false
    → Stores o rows items built
    → (y : OrderItem) × (ys : List OrderItem) × (built ≡ y ∷ ys)
stored_item o [] rows built n h = absurd (ground arith)
stored_item o (i ∷ items) rows [] n h = absurd h
stored_item o (i ∷ items) rows (b ∷ bs) n h = (b, bs, refl)

delete_refused :
    (i : Uuid) (w : App)
    → any (Manage.has_id i) w.session.db.orders ≡ true
    → any (Manage.item_of i) w.session.db.order_items ≡ true
    → delete i w ≡ (err (coded "23503"), w)
unfolding delete
delete_refused i w there used = ground arith

-- An order that a call of `create` made under a fresh id cannot be deleted: the database refuses, since
-- the order's items refer to it, and nothing changes.
created_order_stays :
    (env : Env) (dto : CreateOrderDto) (key : Uuid) (w : App) (c : Created)
    → find (is_order env.order_id) w.session.db.orders ≡ none
    → select (item_of env.order_id) w.session.db.order_items ≡ []
    → (create env dto key w).0 ≡ ok c
    → c.created ≡ true
    → let w' = (create env dto key w).1 in delete c.order.id w' ≡ (err (coded "23503"), w')
created_order_stays env dto key w c fresh no_items e made =
    let w' = (create env dto key w).1 in
    let (total, placed, found, items) = created_lem env dto key w c e made in
    let (priced, stores) = created_order env dto key w c fresh no_items e made in
    let admits = ok-Admits env dto key w c e in
    let (y, ys, shape) =
      stored_item env.order_id dto.items (locked_rows dto w.session.db) c.items admits.0 stores in
    let same_id : c.order.id ≡ env.order_id = ap (λ (o : Order). o.id) priced in
    rw same_id (
      delete_refused env.order_id w' (any-found env.order_id w'.session.db.orders c.order found)
        (any-select env.order_id w'.session.db.order_items y ys (sym items ∙ shape)))
