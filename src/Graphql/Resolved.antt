-- ===== src/Graphql/Resolved.antt =====
-- The fields that src/graphql/resolvers/orders.resolver.ts loads, as one query for each order would give them.
use e_commerce_order_platfor.Common.{
  ℕ, suc, ◌≡◌, refl, ap, ◌∙◌, Option, List, [], ◌∷◌, map, select, find, Distinct, ok, inl, inr,
  Result-cases, length, take, ltb, if◌then◌else◌,
}
use e_commerce_order_platfor.Database.{Uuid, Order, Database, User, Product, OrderItem, Payment}
use e_commerce_order_platfor.Graphql.{
  OrderModel, OrderItemModel, OrdersFilterInput, PaginationCursorInput, node_of, find_orders,
  check_admin_access_to_read, rows_at, cursor_in, matching, connection_of, limit_of,
}
use e_commerce_order_platfor.Runtime.{App}
use e_commerce_order_platfor.Auth.{AuthUser}
use e_commerce_order_platfor.Pagination.{Codec}
use e_commerce_order_platfor.Graphql.Loaders.{
  user_id, product_id, item_order_id, payment_order_id, user_by_id_loader, product_by_id_loader,
  order_items_by_order_id_loader, payments_by_order_id_loader,
}
use e_commerce_order_platfor.Graphql.Batches.{has_key, same_key, batch_by_id_lem, batch_groups_lem}
use e_commerce_order_platfor.Graphql.Resolvers.{
  Load, item_model, payment_model, user_or_error, product_or_error, with_keys, order_id,
  order_user_id, item_product_id, items, payments, user, product, listed, orders,
}

-- What dataloader documents: where a batch has the value of each key at the key's place, each `load` of a
-- key gets this value, however the keys are put together to batches and whichever are cached.
unfoldable pub IsLoading : Load → Type 1
IsLoading load =
    (V : Type 0) (batch : List Uuid → List V) (f : Uuid → V)
    → ((ks : List Uuid) → batch ks ≡ map f ks)
    → (ks : List Uuid) → load V batch ks ≡ map f ks

map-map :
    {A B C : Type 0} (f : B → C) (g : A → B) (xs : List A)
    → map f (map g xs) ≡ map (λ x. f (g x)) xs
map-map f g [] = refl
map-map f g (x ∷ xs) = ap (λ ys. f (g x) ∷ ys) (map-map f g xs)

with_keys-map :
    {V W A : Type 0} (f : V → Uuid → W) (g : Uuid → V) (key : A → Uuid) (xs : List A)
    → with_keys f (map g (map key xs)) (map key xs) ≡ map (λ x. f (g (key x)) (key x)) xs
with_keys-map f g key [] = refl
with_keys-map f g key (x ∷ xs) = ap (λ ys. f (g (key x)) (key x) ∷ ys) (with_keys-map f g key xs)

-- Whatever batches the keys are put in: each order of an answer gets the items and the payments that have
-- its id, in the order of the tables, and nothing of another order.
pub order_fields_lem :
    (load : Load) (d : Database) (orders : List OrderModel)
    → IsLoading load
    → (items load d orders
        ≡ map (λ o. map item_model (select (has_key item_order_id o.id) d.order_items)) orders)
      × (payments load d orders
          ≡ map (λ o. map payment_model (select (has_key payment_order_id o.id) d.payments)) orders)
unfolding IsLoading items payments order_items_by_order_id_loader payments_by_order_id_loader
order_fields_lem load d orders h =
    let loaded_items =
      h (List OrderItem) (order_items_by_order_id_loader d)
        (λ i. select (has_key item_order_id i) d.order_items)
        (batch_groups_lem item_order_id d.order_items) (map order_id orders) in
    let loaded_payments =
      h (List Payment) (payments_by_order_id_loader d)
        (λ i. select (has_key payment_order_id i) d.payments)
        (batch_groups_lem payment_order_id d.payments) (map order_id orders) in
    (
      rw loaded_items (
          map-map (map item_model) (λ i. select (has_key item_order_id i) d.order_items)
            (map order_id orders)
          ∙ map-map (λ i. map item_model (select (has_key item_order_id i) d.order_items)) order_id
              orders),
      rw loaded_payments (
          map-map (map payment_model) (λ i. select (has_key payment_order_id i) d.payments)
            (map order_id orders)
          ∙ map-map (λ i. map payment_model (select (has_key payment_order_id i) d.payments))
              order_id orders),
    )

-- Where the ids of the users and of the products are distinct: each order of an answer gets the user with
-- its user's id, and each item the product with its product's id, or the error that there is none.
owner_fields_lem :
    (load : Load) (d : Database) (orders : List OrderModel) (xs : List OrderItemModel)
    → IsLoading load
    → Distinct (same_key user_id) d.users
    → Distinct (same_key product_id) d.products
    → (user load d orders
        ≡ map (λ o. user_or_error (find (has_key user_id o.user_id) d.users) o.user_id) orders)
      × (product load d xs
          ≡ map
              (λ x.
                product_or_error (find (has_key product_id x.product_id) d.products) x.product_id)
              xs)
unfolding IsLoading user product user_by_id_loader product_by_id_loader
owner_fields_lem load d orders xs h users products =
    let loaded_users =
      h (Option User) (user_by_id_loader d) (λ i. find (has_key user_id i) d.users)
        (λ ks. batch_by_id_lem user_id d.users ks users) (map order_user_id orders) in
    let loaded_products =
      h (Option Product) (product_by_id_loader d) (λ i. find (has_key product_id i) d.products)
        (λ ks. batch_by_id_lem product_id d.products ks products) (map item_product_id xs) in
    (
      rw loaded_users (
          with_keys-map user_or_error (λ i. find (has_key user_id i) d.users) order_user_id orders),
      rw loaded_products (
          with_keys-map product_or_error (λ i. find (has_key product_id i) d.products)
            item_product_id xs),
    )

listed_twice : (xs : List Order) → map listed (map node_of xs) ≡ map node_of xs
listed_twice [] = refl
listed_twice (x ∷ xs) = ap (λ ys. node_of x ∷ ys) (listed_twice xs)

listed_connection :
    (codec : Codec) (limit total : ℕ) (rows : List Order)
    → let c = connection_of codec limit total rows in record c { nodes = map listed c.nodes } ≡ c
listed_connection codec limit total rows =
    let c = connection_of codec limit total rows in
    ap (λ ns. record c { nodes = ns })
      (listed_twice (
        let orders = take (suc limit) rows in
        if ltb limit (length orders) then take limit orders else orders))

-- The query `orders` answers what the service does, on every branch.
orders_lem :
    (codec : Codec) (u : AuthUser) (filter : Option OrdersFilterInput)
    (pagination : Option PaginationCursorInput) (w : App)
    → orders codec u filter pagination w ≡ find_orders codec u filter pagination w
unfolding orders find_orders
orders_lem codec u filter pagination w =
    let same = listed_connection codec (limit_of pagination) (length (matching u filter w)) in
    let rows = rows_at codec (matching u filter w) (cursor_in pagination) in
    elim (Result-cases (check_admin_access_to_read u w).0) [
      | inr (e, refused) ↦ rw refused refl
      | inl (a, allowed) ↦ elim (Result-cases rows) [
        | inr (e, unread) ↦ rw (allowed, unread) refl
        | inl (found, read) ↦ rw (allowed, read) (ap (λ c. (ok c, w)) (same found))
      ]
    ]
