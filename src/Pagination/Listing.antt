-- ===== src/Pagination/Listing.antt =====
-- The list of orders, `findAll` of src/orders/orders.service.ts, read to its end.
use e_commerce_order_platfor.Common.{
  ℕ, suc, ◌≡◌, refl, ◌∙◌, ◌&&◌, Option, none, some, List, length, select, find, Distinct,
}
use e_commerce_order_platfor.Database.{Uuid, Order}
use e_commerce_order_platfor.Runtime.{App}
use e_commerce_order_platfor.Auth.{AuthUser}
use e_commerce_order_platfor.Orders.Manage.{has_id, orders_of, may_read}
use e_commerce_order_platfor.Orders.Manage.Access.{same_order}
use e_commerce_order_platfor.Pagination.{
  order_cursor, Text, CursorPayload, Codec, fields_of, order_by_newest, find_all,
  paginate_query_builder_by_cursor,
}
use e_commerce_order_platfor.Pagination.Complete.{all_pages, all_pages_complete}
use e_commerce_order_platfor.Pagination.Sorted.{Distinct-select, find-select}
use e_commerce_order_platfor.Pagination.Walk.{IsNewestFirst}

-- The orders of all pages that `findAll` gives a user who follows its cursors.
abbrev pub pages : Codec → AuthUser → App → ℕ → ℕ → Option Text → List Order
pages codec u w limit =
    all_pages (λ c. find_all codec u (record { limit = some limit; cursor = c }) w)

abbrev pub readable_orders : AuthUser → App → List Order
readable_orders u w = select (may_read u) (orders_of w)

find_all_lem :
    (codec : Codec) (u : AuthUser) (w : App) (limit : ℕ) (c : Option Text)
    → find_all codec u (record { limit = some limit; cursor = c }) w
      ≡ paginate_query_builder_by_cursor
          (λ o. 0)
          codec
          (order_by_newest (readable_orders u w))
          (record { limit = some limit; cursor = c })
unfolding find_all
find_all_lem codec u w limit c = refl

-- Where the ids of the orders are distinct and a cursor reads back as what it was written from: a user who
-- follows the cursors of the list, with a limit of at least one, gets a list that is newest first with no
-- two orders alike; and looking in it for an order finds exactly what `findOne` of this user would find.
pub find_all_complete :
    (codec : Codec) (u : AuthUser) (w : App) (n : ℕ) (k : Uuid)
    → ((c : CursorPayload) → codec.parse (codec.stringify c) ≡ some (fields_of c))
    → Distinct same_order (orders_of w)
    → let listed =
        pages codec u w (suc n) (suc (length (order_by_newest (readable_orders u w)))) none in
      IsNewestFirst listed
      × (find (has_id k) listed ≡ find (λ o. has_id k o && may_read u o) (orders_of w))
find_all_complete codec u w n k law ids =
    let distinct = Distinct-select (may_read u) (orders_of w) ids in
    let (newest, found) =
      all_pages_complete codec (readable_orders u w) n
        (λ c. find_all codec u (record { limit = some (suc n); cursor = c }) w)
        (find_all_lem codec u w (suc n)) k law distinct in
    (newest, found ∙ find-select k (may_read u) (orders_of w))
