-- ===== src/Orders/Create/Idempotency.antt =====
-- Repeating `create` (src/orders/orders.service.ts) with the key of an order that exists.
use e_commerce_order_platfor.Common.{
  ◌≡◌, refl, ◌∙◌, sym, ap, inl, inr, Bool, true, false, none, some, List, [], ◌∷◌, ◌++◌, ok, arith,
  Bool-cases, Option-cases, Result-cases, find, any, select, find-append_none, find-update_where,
  length, ◌==◌, update_where,
}
use e_commerce_order_platfor.Database.{Uuid, Order, Database}
use e_commerce_order_platfor.Runtime.{App}
use e_commerce_order_platfor.Orders.Create.Steps.{
  Env, CreateOrderDto, Created, is_order, item_of, new_order, order_by_key, has_order_key, unique,
  product_ids,
}
use e_commerce_order_platfor.Orders.Create.Flow.{
  create, place, find_existing, finish, reuse_or_place, on_error, reused,
}
use e_commerce_order_platfor.Orders.Create.Parts.{Placed-Parts, with_totals}
use e_commerce_order_platfor.Orders.Create.Totals.{created_lem, find_new_order, same_some}

-- A call that answers with an order that existed has found it under the key and changed nothing.
reused_lem :
    (env : Env) (dto : CreateOrderDto) (key : Uuid) (w : App) (c : Created)
    → (create env dto key w).0 ≡ ok c
    → c.created ≡ false
    → ((create env dto key w).1.session.db ≡ w.session.db)
      × (order_by_key dto.user_id key w.session.db ≡ some c.order)
      × (c ≡ reused c.order w.session.db)
unfolding create find_existing reuse_or_place on_error finish
reused_lem env dto key w c e old = elim (Option-cases (order_by_key dto.user_id key w.session.db)) [
  | inr (o, found) ↦ (ground arith, ground arith, ground arith)
  | inl free ↦ elim (Result-cases (place env dto key w.session.db).0) [
    | inr (x, failed) ↦ absurd (ground arith)
    | inl (total, placed) ↦ absurd (ground arith)
  ]
]

-- The checks that a call has passed which answered with an order.
abbrev pub Admits : CreateOrderDto → Database → Type 0
Admits dto d =
    ((length dto.items == 0) ≡ false)
    × ((length (unique (product_ids dto)) == length (product_ids dto)) ≡ true)
    × (any (λ u. u.id == dto.user_id) d.users ≡ true)

pub ok-Admits :
    (env : Env) (dto : CreateOrderDto) (key : Uuid) (w : App) (c : Created)
    → (create env dto key w).0 ≡ ok c
    → Admits dto w.session.db
unfolding create find_existing on_error
ok-Admits env dto key w c e = (ground arith, ground arith, ground arith)

-- An admitted request whose key belongs to an order is answered with that order.
existing_lem :
    (env : Env) (dto : CreateOrderDto) (key : Uuid) (w : App) (o : Order)
    → Admits dto w.session.db
    → order_by_key dto.user_id key w.session.db ≡ some o
    → ((create env dto key w).0 ≡ ok (reused o w.session.db))
      × ((create env dto key w).1.session.db ≡ w.session.db)
unfolding create find_existing reuse_or_place on_error
existing_lem env dto key w o a found = (ground arith, ground arith)

find-none_of_any :
    (p : Order → Bool) (xs ys : List Order) → any p (xs ++ ys) ≡ false → find p xs ≡ none
find-none_of_any p [] ys h = refl
find-none_of_any p (x ∷ xs) ys h = ground (arith, find-none_of_any p xs ys)

-- The new order is what a search by its key finds.
find_by_key :
    (user key i : Uuid) (f : Order → Order) (os : List Order) (o : Order)
    → ((x : Order) → has_order_key user key (f x) ≡ has_order_key user key x)
    → has_order_key user key o ≡ true
    → o.id ≡ i
    → find (has_order_key user key) os ≡ none
    → find (has_order_key user key) (update_where (is_order i) f (os ++ o ∷ [])) ≡ some (f o)
find_by_key user key i f os o same mine id free =
    let seen = find-update_where (has_order_key user key) (is_order i) f same (os ++ o ∷ []) in
    ground (arith, find-append_none (has_order_key user key) os (o ∷ []) free)

-- The order that a call created is the one that its key finds afterwards, if its id was fresh.
created_by_key :
    (env : Env) (dto : CreateOrderDto) (key : Uuid) (w : App) (c : Created)
    → find (is_order env.order_id) w.session.db.orders ≡ none
    → (create env dto key w).0 ≡ ok c
    → c.created ≡ true
    → (order_by_key dto.user_id key (create env dto key w).1.session.db ≡ some c.order)
      × ((create env dto key w).1.session.db.users ≡ w.session.db.users)
      × (c.items ≡ select (item_of c.order.id) (create env dto key w).1.session.db.order_items)
created_by_key env dto key w c fresh e made =
    let (total, placed, found, loaded) = created_lem env dto key w c e made in
    let d' = (create env dto key w).1.session.db in
    let parts = Placed-Parts env dto key w.session.db d' total placed in
    let f = with_totals (select (item_of env.order_id) d'.order_items) in
    let o = new_order env dto key in
    let by_id : find (is_order env.order_id) d'.orders ≡ some (f o) =
      rw (parts.orders)
        (find_new_order env.order_id f w.session.db.orders o (λ x. refl) refl fresh) in
    let by_key : order_by_key dto.user_id key d' ≡ some (f o) = rw (parts.orders) (
      find_by_key dto.user_id key env.order_id f w.session.db.orders o (λ x. refl) (ground arith)
        refl
        (find-none_of_any (has_order_key dto.user_id key) w.session.db.orders env.rivals
          parts.key_free)) in
    let same : c.order ≡ f o = same_some c.order (f o) (sym found ∙ by_id) in
    (
      by_key ∙ ap (λ (x : Order). some x) (sym same),
      parts.users,
      rw (ap (λ (x : Order). x.id) same) loaded,
    )

reused_same :
    (c : Created) (d : Database)
    → c.items ≡ select (item_of c.order.id) d.order_items
    → reused c.order d ≡ record c { created = false; payment = none }
reused_same c d e = ground arith

Admits-users :
    (dto : CreateOrderDto) (d d' : Database) → d'.users ≡ d.users → Admits dto d → Admits dto d'
Admits-users dto d d' e a = (a.0, a.1, rw e (a.2))

-- After a call that answered with an order, created under a fresh id or found, any later call for the
-- same request and key, whatever it is given to work with, answers with the same order and the same
-- items, marked as not created and with no payment, and leaves the committed database alone.
pub create_idempotent :
    (env env' : Env) (dto : CreateOrderDto) (key : Uuid) (w : App) (c : Created)
    → find (is_order env.order_id) w.session.db.orders ≡ none
    → (create env dto key w).0 ≡ ok c
    → let w' = (create env dto key w).1 in
      ((create env' dto key w').0 ≡ ok (record c { created = false; payment = none }))
      × ((create env' dto key w').1.session.db ≡ w'.session.db)
create_idempotent env env' dto key w c fresh e =
    let w' = (create env dto key w).1 in
    elim (Bool-cases c.created) [
      | inl made ↦
          let (found, users, items) = created_by_key env dto key w c fresh e made in
          let admits =
            Admits-users dto w.session.db w'.session.db users (ok-Admits env dto key w c e) in
          let (again, kept) = existing_lem env' dto key w' c.order admits found in
          (again ∙ ap (λ (x : Created). ok x) (reused_same c w'.session.db items), kept)
      | inr old ↦
          let (same, found, shape) = reused_lem env dto key w c e old in
          let admits =
            Admits-users dto w.session.db w'.session.db (ap (λ (d : Database). d.users) same)
              (ok-Admits env dto key w c e) in
          let (again, kept) = existing_lem env' dto key w' c.order admits (rw same found) in
          let items : c.items ≡ select (item_of c.order.id) w'.session.db.order_items =
            rw same (ap (λ (x : Created). x.items) shape) in
          (again ∙ ap (λ (x : Created). ok x) (reused_same c w'.session.db items), kept)
    ]
