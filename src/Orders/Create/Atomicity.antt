-- ===== src/Orders/Create/Atomicity.antt =====
-- What `create` (src/orders/orders.service.ts) commits: all of the order, or nothing.
use e_commerce_order_platfor.Common.{
  ◌≡◌, ◌≢◌, ◌∙◌, refl, sym, ap, ◌⊎◌, inl, inr, none, some, List, [], ◌∷◌, ◌++◌, find, select,
  update_where, ok, arith, Option-cases, Result-cases,
}
use e_commerce_order_platfor.Common.Int.{ℤ}
use e_commerce_order_platfor.Database.{Uuid, Order, Database}
use e_commerce_order_platfor.Runtime.{App}
use e_commerce_order_platfor.Orders.Create.Steps.{
  Env, CreateOrderDto, order_by_key, is_order, item_of, new_order,
}
use e_commerce_order_platfor.Orders.Create.Parts.{Placed, place-Parts, with_totals}
use e_commerce_order_platfor.Orders.Create.Flow.{
  place, find_existing, finish, reuse_or_place, create, after_authorize, payments_left,
  payment_request,
}

appended_found :
    (i : Uuid) (f : Order → Order) (os : List Order) (o : Order)
    → o.id ≡ i
    → ((x : Order) → (f x).id ≡ x.id)
    → find (is_order i) (update_where (is_order i) f (os ++ o ∷ [])) ≢ none
appended_found i f [] o id same none_found = ground (arith, same o)
appended_found i f (x ∷ os) o id same none_found =
    ground (arith, same x, appended_found i f os o id same)

find_existing_reads :
    (dto : CreateOrderDto) (key : Uuid) (d : Database) → (find_existing dto key d).1 ≡ d
unfolding find_existing
find_existing_reads dto key d = ground arith

finish_session :
    (env : Env) (dto : CreateOrderDto) (key : Uuid) (total : ℤ) (w : App) (o : Order)
    → find (is_order env.order_id) w.session.db.orders ≡ some o
    → (finish env dto key total w).1.session
      ≡ after_authorize env (payment_request dto key env.order_id total) w.session
unfolding finish
finish_session env dto key total w o found = ground arith

-- The new row is there after the steps, so `finish` loads an order.
placed_found :
    (env : Env) (dto : CreateOrderDto) (key : Uuid) (d p : Database) (total : ℤ)
    → place env dto key d ≡ (ok total, p)
    → (o : Order) × (find (is_order env.order_id) p.orders ≡ some o)
placed_found env dto key d p total placed =
    let parts = place-Parts env dto key d p total placed in
    elim (Option-cases (find (is_order env.order_id) p.orders)) [
      | inr there ↦ there
      | inl missing ↦ absurd (
          appended_found env.order_id (with_totals (select (item_of env.order_id) p.order_items))
            d.orders (new_order env dto key) refl (λ x. refl)
            (ap (λ os. find (is_order env.order_id) os) (sym parts.orders) ∙ missing))
    ]

-- Where all steps succeed, they are committed, unless a check before them refused the order.
placed_commits :
    (env : Env) (dto : CreateOrderDto) (key : Uuid) (w : App) (total : ℤ)
    → order_by_key dto.user_id key w.session.db ≡ none
    → (place env dto key w.session.db).0 ≡ ok total
    → let d' = (create env dto key w).1.session.db in
      (d' ≡ w.session.db)
      ⊎ (d' ≡ record (place env dto key w.session.db).1 {
        payments =
            payments_left env
              (payment_request dto key env.order_id total)
              (place env dto key w.session.db).1;
      })
unfolding create find_existing reuse_or_place
placed_commits env dto key w total free placed =
    let p = (place env dto key w.session.db).1 in
    let steps : place env dto key w.session.db ≡ (ok total, p) = ground arith in
    let after = record w {
      session = record { db = p; tx = none; stranded = w.session.stranded };
    } in
    let (o, found) = placed_found env dto key w.session.db p total steps in
    let session = finish_session env dto key total after o found in ground (arith, found, session)

-- `create` either leaves the committed database alone or commits exactly the placed order.
pub create_commits :
    (env : Env) (dto : CreateOrderDto) (key : Uuid) (w : App)
    → let d = w.session.db in
      let d' = (create env dto key w).1.session.db in
      (d' ≡ d) ⊎ ((total : ℤ) × Placed env dto key d d' total)
unfolding create reuse_or_place find_existing
create_commits env dto key w = elim (Option-cases (order_by_key dto.user_id key w.session.db)) [
  | inr (o, found) ↦ inl (ground arith)
  | inl free ↦ elim (Result-cases (place env dto key w.session.db).0) [
    | inr (e, failed) ↦ inl (ground arith)
    | inl (total, placed) ↦ elim (placed_commits env dto key w total free placed) [
      | inl same ↦ inl same
      | inr e ↦ inr (total, ((place env dto key w.session.db).1, ground arith, e))
    ]
  ]
]
