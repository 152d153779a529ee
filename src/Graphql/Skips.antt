-- ===== src/Graphql/Skips.antt =====
-- Orders that `findOrders` of src/graphql/services/gql-orders.service.ts leaves out: a cursor holds the time
-- of a row without its microseconds.
use e_commerce_order_platfor.Common.{
  ℕ, zero, suc, ◌≤◌, ◌<◌, ◌≡◌, refl, ap, subst, ◌∙◌, Bool, true, false, ◌&&◌, Option, some, List,
  [], ◌∷◌, ◌++◌, map, length, take, last?, select, find, any, All, Distinct, ok, inl, inr, ◌⊎◌,
  arith, Bool-cases, ltb, ◌==◌,
}
use e_commerce_order_platfor.Database.{Order, Uuid}
use e_commerce_order_platfor.Runtime.{App}
use e_commerce_order_platfor.Auth.{AuthUser}
use e_commerce_order_platfor.Orders.Manage.{orders_of, has_id}
use e_commerce_order_platfor.Orders.Manage.Access.{same_order}
use e_commerce_order_platfor.Pagination.{
  to_js_date, order_cursor, CursorPayload, Codec, fields_of, is_after,
}
use e_commerce_order_platfor.Pagination.Walk.{
  last-take, length-take_long, take-take-suc, take_short,
}
use e_commerce_order_platfor.Pagination.Sorted.{All-select, All-order_by}
use e_commerce_order_platfor.Graphql.{
  OrderModel, OrdersConnection, OrdersFilterInput, matching, passes, is_visible, rows_at,
  connection_of, node_of, end_cursor_of, payload_of,
}
use e_commerce_order_platfor.Graphql.Pages.{may_list, all_nodes, All-take}
use e_commerce_order_platfor.Graphql.Walk.{find_orders_lem, with_total}

abbrev pub shows : Uuid → List OrderModel → Bool
shows i nodes = any (λ (m : OrderModel). m.id == i) nodes

-- A row of the table other than the order `o`, or `o` itself.
abbrev Differs : Order → Order → Type 0
Differs o y = ((y.id == o.id) ≡ false) ⊎ (y.created_at ≡ o.created_at)

All-apart :
    (o x : Order) (xs : List Order)
    → x.id ≡ o.id
    → All (λ y. same_order x y ≡ false) xs
    → All (Differs o) xs
All-apart o x [] e h = tt
All-apart o x (y ∷ ys) e h = (inl (ground (arith, h.0, e)), All-apart o x ys e h.1)

All-Differs :
    (o : Order) (xs : List Order)
    → find (has_id o.id) xs ≡ some o
    → Distinct same_order xs
    → All (Differs o) xs
All-Differs o [] h d = tt
All-Differs o (x ∷ xs) h d = elim (Bool-cases (x.id == o.id)) [
  | inl e ↦
      let same : x ≡ o = ground (arith, h, e) in
      (
        inr (ap (λ (y : Order). y.created_at) same),
        All-apart o x xs (ap (λ (y : Order). y.id) same) d.0,
      )
  | inr e ↦ (inl e, All-Differs o xs (ground (arith, h, e)) d.1)
]

-- What is on the pages after a cursor before `o`.
abbrev IsLater : Order → ℕ → Order → Type 0
IsLater o t y = ((y.id == o.id) ≡ false) × (y.created_at ≤ t)

IsLater_lem :
    (o : Order) (c : CursorPayload) (x : Order)
    → c.created_at < o.created_at
    → is_after c x ≡ true
    → Differs o x
    → IsLater o c.created_at x
IsLater_lem o c x h e (inl other) = (other, ground arith)
IsLater_lem o c x h e (inr same) = absurd (ground arith)

All-IsLater :
    (o : Order) (c : CursorPayload) (xs : List Order)
    → c.created_at < o.created_at
    → All (Differs o) xs
    → All (IsLater o c.created_at) (select (is_after c) xs)
All-IsLater o c [] h k = tt
All-IsLater o c (x ∷ xs) h k = elim (Bool-cases (is_after c x)) [
  | inl e ↦ rw e (IsLater_lem o c x h e k.0, All-IsLater o c xs h k.1)
  | inr e ↦ rw e (All-IsLater o c xs h k.1)
]

shows-later :
    (o : Order) (t : ℕ) (xs : List Order)
    → All (IsLater o t) xs
    → shows o.id (map node_of xs) ≡ false
shows-later o t [] h = refl
shows-later o t (x ∷ xs) h = ground (arith, h.0, shows-later o t xs h.1)

shows-append :
    (i : Uuid) (xs ys : List OrderModel)
    → shows i xs ≡ false
    → shows i ys ≡ false
    → shows i (xs ++ ys) ≡ false
shows-append i [] ys h k = k
shows-append i (x ∷ xs) ys h k = ground (arith, shows-append i xs ys)

connection_long :
    (codec : Codec) (n total : ℕ) (ms : List Order)
    → suc n < length ms
    → connection_of codec (suc n) total ms ≡ record {
      nodes = map node_of (take (suc n) ms);
      has_next_page = true;
      end_cursor = end_cursor_of codec (last? (take (suc n) ms));
      total_count = total;
    }
connection_long codec n total ms h =
    let (full, left) = length-take_long (suc n) ms h in
    let more : ltb (suc n) (length (take (suc (suc n)) ms)) ≡ true = ground arith in
    rw (more, take-take-suc (suc n) ms) refl

connection_short :
    (codec : Codec) (n total : ℕ) (ms : List Order)
    → length ms ≤ suc n
    → connection_of codec (suc n) total ms ≡ record {
      nodes = map node_of ms;
      has_next_page = false;
      end_cursor = end_cursor_of codec (last? ms);
      total_count = total;
    }
connection_short codec n total ms h =
    let whole = take_short (suc (suc n)) ms (omega arith) in
    let less : ltb (suc n) (length ms) ≡ false = ground arith in rw (whole, less) refl

All-last : (P : Order → Type 0) (xs : List Order) (x : Order) → All P xs → last? xs ≡ some x → P x
All-last P [] x h e = absurd (cc)
All-last P (y ∷ []) x h e = subst P (ground arith) h.0
All-last P (y ∷ z ∷ xs) x h e = All-last P (z ∷ xs) x h.1 e

to_js_date_le : (t : ℕ) → to_js_date t ≤ t
to_js_date_le t = omega arith

-- From a cursor on that is before the order `o`.
skipped_from :
    (codec : Codec) (u : AuthUser) (filter : Option OrdersFilterInput) (w : App) (n k : ℕ)
    (o : Order) (c : CursorPayload)
    → ((c : CursorPayload) → codec.parse (codec.stringify c) ≡ some (fields_of c))
    → may_list u ≡ true
    → All (Differs o) (matching u filter w)
    → c.created_at < o.created_at
    → shows o.id (all_nodes codec u filter w (suc n) k (some (codec.stringify c))) ≡ false
skipped_from codec u filter w n zero o c law may differ h = refl
skipped_from codec u filter w n (suc k) o c law may differ h =
    let rows = matching u filter w in
    let ms = select (is_after c) rows in
    let later = All-IsLater o c rows h differ in
    let selected : rows_at codec rows (some (codec.stringify c)) ≡ ok ms = rw (law c) refl in
    let found =
      find_orders_lem codec u filter w n (some (codec.stringify c)) may
      ∙ ap (with_total codec (suc n) (length rows)) selected in
    elim (Bool-cases (ltb (suc n) (length ms))) [
      | inr short ↦
          rw
            (found
              ∙ ap (λ (q : OrdersConnection). ok q)
                  (connection_short codec n (length rows) ms (ground arith)))
            (shows-later o c.created_at ms later)
      | inl long ↦
          let (init, x, shape, last) = last-take n ms (ground arith) in
          let on_page = All-take (IsLater o c.created_at) (suc n) ms later in
          let last_later = All-last (IsLater o c.created_at) (take (suc n) ms) x on_page last in
          let rounded = to_js_date_le x.created_at in
          rw
            (
              found
                  ∙ ap (λ (q : OrdersConnection). ok q)
                      (connection_long codec n (length rows) ms (ground arith)),
              last,
            )
            (shows-append o.id (map node_of (take (suc n) ms))
              (all_nodes codec u filter w (suc n) k (some (codec.stringify (payload_of x))))
              (shows-later o c.created_at (take (suc n) ms) on_page)
              (skipped_from codec u filter w n k o (payload_of x) law may differ (omega arith)))
    ]

-- Where the ids of the orders are distinct and a cursor reads back as what it was written from: an order that
-- was made in the same millisecond as the last order of a page, but some microseconds after the millisecond
-- began, is on no page that follows, however far the user reads on and whether it was shown before or not.
pub same_millisecond_is_skipped :
    (codec : Codec) (u : AuthUser) (filter : Option OrdersFilterInput) (w : App) (n k : ℕ)
    (o x : Order)
    → ((c : CursorPayload) → codec.parse (codec.stringify c) ≡ some (fields_of c))
    → may_list u ≡ true
    → Distinct same_order (orders_of w)
    → find (has_id o.id) (orders_of w) ≡ some o
    → to_js_date x.created_at < o.created_at
    → shows o.id (all_nodes codec u filter w (suc n) k (end_cursor_of codec (some x))) ≡ false
same_millisecond_is_skipped codec u filter w n k o x law may ids stored h =
    let p = λ (y : Order). is_visible u y && passes filter y in
    let differ =
      All-order_by (Differs o) (select p (orders_of w))
        (All-select (Differs o) p (orders_of w) (All-Differs o (orders_of w) stored ids)) in
    skipped_from codec u filter w n k o (payload_of x) law may differ h
