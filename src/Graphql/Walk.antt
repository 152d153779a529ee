-- ===== src/Graphql/Walk.antt =====
-- The pages of `findOrders` of src/graphql/services/gql-orders.service.ts, put together.
use e_commerce_order_platfor.Common.{
  Bool, subst, ℕ, zero, suc, ◌≡◌, refl, ap, sym, ◌∙◌, true, false, not, ◌&&◌, Option, none, some,
  List, [], ◌∷◌, ◌++◌, map, length, last?, select, All, Distinct, Result, Result-cases, ok, err,
  inl, inr, ◌⊎◌, arith, Bool-cases, ◌==◌,
}
use e_commerce_order_platfor.Database.{Order}
use e_commerce_order_platfor.Runtime.{App}
use e_commerce_order_platfor.Auth.{AuthUser, is_staff}
use e_commerce_order_platfor.Orders.Manage.{orders_of}
use e_commerce_order_platfor.Orders.Manage.Access.{same_order}
use e_commerce_order_platfor.Pagination.{
  order_cursor, to_js_date, payload_of, Text, CursorPayload, Codec, fields_of, is_after, Page,
}
use e_commerce_order_platfor.Pagination.Plain.{page_of, cursor_of, page_at}
use e_commerce_order_platfor.Pagination.Walk.{
  IsNewestFirst, follow, walk, walk_all, select_whole, All-middle,
}
use e_commerce_order_platfor.Pagination.Sorted.{Distinct-select, order_by-IsNewestFirst}
use e_commerce_order_platfor.Graphql.{
  OrderModel, OrdersConnection, OrdersFilterInput, has_read_scope, matching, passes, is_visible,
  rows_at, connection_of, node_of, find_orders,
}
use e_commerce_order_platfor.Graphql.Pages.{
  may_list, follow_connection, all_nodes, connection_floored, from_page, floored,
}

map-append : {A B : Type 0} (f : A → B) (xs ys : List A) → map f (xs ++ ys) ≡ map f xs ++ map f ys
map-append f [] ys = refl
map-append f (x ∷ xs) ys = ap (λ zs. f x ∷ zs) (map-append f xs ys)

abbrev pub with_total : Codec → ℕ → ℕ → Result (List Order) → Result OrdersConnection
with_total codec limit total (err e) = err e
with_total codec limit total (ok ms) = ok (connection_of codec limit total ms)

pub find_orders_lem :
    (codec : Codec) (u : AuthUser) (filter : Option OrdersFilterInput) (w : App) (n : ℕ)
    (cursor : Option Text)
    → may_list u ≡ true
    → (find_orders codec u filter (some (record { limit = suc n; cursor = cursor })) w).0
      ≡ with_total codec
          (suc n)
          (length (matching u filter w))
          (rows_at codec (matching u filter w) cursor)
unfolding find_orders
find_orders_lem codec u filter w n cursor may =
    let positive : (suc n == 0) ≡ false = ground arith in
    let allowed : (is_staff u.roles && not (has_read_scope u)) ≡ false = ground arith in
    elim (Result-cases (rows_at codec (matching u filter w) cursor)) [
      | inl (ms, e) ↦ rw (allowed, positive, e) refl
      | inr (x, e) ↦ rw (allowed, positive, e) refl
    ]

-- What a client has to send: nothing, or a cursor that was written.
abbrev IsReadable : Codec → Option Text → Type 0
IsReadable codec cursor =
    (cursor ≡ none) ⊎ ((c : CursorPayload) × (cursor ≡ some (codec.stringify c)))

cursor_of-IsReadable :
    (codec : Codec) (o : Option Order) → IsReadable codec (cursor_of (floored codec) o)
cursor_of-IsReadable codec none = inl refl
cursor_of-IsReadable codec (some o) =
    inr (record { id = o.id; created_at = to_js_date o.created_at }, refl)

-- The rows after a readable cursor, as both services select them.
rows_at_lem :
    (codec : Codec) (rows : List Order) (n : ℕ) (cursor : Option Text)
    → ((c : CursorPayload) → codec.parse (codec.stringify c) ≡ some (fields_of c))
    → IsReadable codec cursor
    → (ms : List Order) × (rows_at codec rows cursor ≡ ok ms)
      × (page_at (floored codec) (suc n) rows cursor ≡ ok (page_of (floored codec) (suc n) ms))
rows_at_lem codec rows n cursor law (inl e) = (rows, rw e refl, rw e refl)
rows_at_lem codec rows n cursor law (inr (c, e)) =
    (select (is_after c) rows, rw (e, law c) refl, rw (e, law c) refl)

follow_lem :
    (t : ℕ) (p : Page Order) (rest : Option Text → List OrderModel)
    (rows : Option Text → List Order)
    → rest p.next_cursor ≡ map node_of (rows p.next_cursor)
    → follow_connection (ok (from_page t p)) rest ≡ map node_of (follow (ok p) rows)
follow_lem t p rest rows h = elim (Bool-cases p.has_next) [
  | inl more ↦ rw (more, h) (sym (map-append node_of p.items (rows p.next_cursor)))
  | inr last ↦ rw last refl
]

all_nodes-walk :
    (codec : Codec) (u : AuthUser) (filter : Option OrdersFilterInput) (w : App) (n k : ℕ)
    (cursor : Option Text)
    → ((c : CursorPayload) → codec.parse (codec.stringify c) ≡ some (fields_of c))
    → may_list u ≡ true
    → IsReadable codec cursor
    → all_nodes codec u filter w (suc n) k cursor
      ≡ map node_of (walk (floored codec) (suc n) (matching u filter w) k cursor)
all_nodes-walk codec u filter w n zero cursor law may readable = refl
all_nodes-walk codec u filter w n (suc k) cursor law may readable =
    let rows = matching u filter w in
    let (ms, selected, paged) = rows_at_lem codec rows n cursor law readable in
    let p = page_of (floored codec) (suc n) ms in
    let found : (find_orders codec u filter (some (record { limit = suc n; cursor = cursor })) w).0
        ≡ ok (from_page (length rows) p) =
      find_orders_lem codec u filter w n cursor may
      ∙ ap (with_total codec (suc n) (length rows)) selected
      ∙ ap (λ c. ok c) (connection_floored codec (suc n) (length rows) ms) in
    let rest_nodes = all_nodes-walk codec u filter w n k in
    let rest_rows = walk (floored codec) (suc n) rows k in
    rw (found, paged)
      (follow_lem (length rows) p (all_nodes codec u filter w (suc n) k) rest_rows (
        rest_nodes p.next_cursor law may
          (cursor_of-IsReadable codec (last? (page_of (floored codec) (suc n) ms).items))))

abbrev pub same_millisecond : Order → Order → Bool
same_millisecond x y = to_js_date y.created_at == to_js_date x.created_at

abbrev floored_payload : Order → CursorPayload
floored_payload o = record { id = o.id; created_at = to_js_date o.created_at }

older_floored :
    (x : Order) (ys : List Order)
    → All (λ y. is_after (payload_of x) y ≡ true) ys
    → All (λ y. same_millisecond x y ≡ false) ys
    → All (λ y. is_after (floored_payload x) y ≡ true) ys
older_floored x [] h k = tt
older_floored x (y ∷ ys) h k = (ground (arith, h.0, k.0), older_floored x ys h.1 k.1)

-- Where no two rows are of one millisecond, the rows after a row are those that its cursor selects.
select_floored :
    (xs : List Order) (y : Order) (ys : List Order)
    → IsNewestFirst (xs ++ y ∷ ys)
    → Distinct same_millisecond (xs ++ y ∷ ys)
    → select (is_after (floored_payload y)) (xs ++ y ∷ ys) ≡ ys
select_floored [] y ys h d =
    let self : is_after (floored_payload y) y ≡ false = ground arith in
    rw (self, select_whole (floored_payload y) ys (older_floored y ys h.0 d.0)) refl
select_floored (x ∷ xs) y ys h d =
    let older = All-middle (λ z. is_after (payload_of x) z ≡ true) xs y ys h.0 in
    let apart = All-middle (λ z. same_millisecond x z ≡ false) xs y ys d.0 in
    let newer : is_after (floored_payload y) x ≡ false = ground arith in
    rw newer (select_floored xs y ys h.1 d.1)

-- Where the ids of the orders are distinct, no two of the orders that are visible to the user and pass the
-- filter were created in the same millisecond, and a cursor reads back as what it was written from: a user
-- who may list orders, and who follows the cursors of the connections with a limit of at least one, gets
-- exactly the orders that are visible and pass the filter, each once, newest first, whatever the microseconds
-- of their times.
pub all_nodes_complete :
    (codec : Codec) (u : AuthUser) (filter : Option OrdersFilterInput) (w : App) (n : ℕ)
    → ((c : CursorPayload) → codec.parse (codec.stringify c) ≡ some (fields_of c))
    → may_list u ≡ true
    → Distinct same_order (orders_of w)
    → Distinct same_millisecond (matching u filter w)
    → all_nodes codec u filter w (suc n) (suc (length (matching u filter w))) none
        ≡ map node_of (matching u filter w)
      × IsNewestFirst (matching u filter w)
all_nodes_complete codec u filter w n law may ids apart =
    let p = λ (o : Order). is_visible u o && passes filter o in
    let rows = matching u filter w in
    let newest : IsNewestFirst rows =
      order_by-IsNewestFirst (select p (orders_of w)) (Distinct-select p (orders_of w) ids) in
    let resumes =
      λ (before : List Order) (x : Order) (rest : List Order) (split : rows ≡ before ++ x ∷ rest).
        let selected : select (is_after (floored_payload x)) rows ≡ rest =
          subst (λ r. select (is_after (floored_payload x)) r ≡ rest) (sym split)
            (select_floored before x rest (subst (λ r. IsNewestFirst r) split newest)
              (subst (λ r. Distinct same_millisecond r) split apart)) in
        let next : page_at (floored codec) (suc n) rows (some (codec.stringify (floored_payload x)))
            ≡ ok (page_of (floored codec) (suc n) rest) =
          rw (law (floored_payload x), selected) refl in
        next in
    (
      all_nodes-walk codec u filter w n (suc (length rows)) none law may (inl refl)
          ∙ ap (λ xs. map node_of xs) (walk_all (floored codec) n rows resumes),
      newest,
    )
