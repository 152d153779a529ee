-- ===== src/Graphql/Pages.antt =====
-- A client that follows the cursors of `findOrders` of src/graphql/services/gql-orders.service.ts.
use e_commerce_order_platfor.Common.{
  none, ℕ, zero, suc, ◌≡◌, refl, Bool, not, ◌&&◌, Option, some, List, [], ◌∷◌, ◌++◌, map, length,
  take, last?, All, Result, ok, err, ltb, if◌then◌else◌,
}
use e_commerce_order_platfor.Database.{Order}
use e_commerce_order_platfor.Runtime.{App}
use e_commerce_order_platfor.Auth.{AuthUser, is_staff}
use e_commerce_order_platfor.Pagination.{to_js_date, order_cursor, Text, Codec, Page}
use e_commerce_order_platfor.Pagination.Plain.{page_of, cursor_of}
use e_commerce_order_platfor.Graphql.{
  OrderModel, OrdersConnection, OrdersFilterInput, has_read_scope, connection_of, node_of,
  end_cursor_of, find_orders,
}

-- The codec as this service uses it: a cursor gets the `Date` of a row, which has milliseconds.
abbrev pub floored : Codec → Codec
floored codec = record codec {
  stringify = λ c. codec.stringify (record { id = c.id; created_at = to_js_date c.created_at });
}

abbrev pub may_list : AuthUser → Bool
may_list u = not (is_staff u.roles && not (has_read_scope u))

abbrev pub follow_connection :
    Result OrdersConnection → (Option Text → List OrderModel) → List OrderModel
follow_connection (err e) rest = []
follow_connection (ok c) rest = if c.has_next_page then c.nodes ++ rest c.end_cursor else c.nodes

-- The nodes of all connections, from a cursor on; `n` bounds the number of pages.
abbrev pub all_nodes :
    Codec → AuthUser → Option OrdersFilterInput → App → ℕ → ℕ → Option Text → List OrderModel
all_nodes codec u filter w limit zero cursor = []
all_nodes codec u filter w limit (suc n) cursor =
    follow_connection
      (find_orders codec u filter (some (record { limit = limit; cursor = cursor })) w).0
      (all_nodes codec u filter w limit n)

pub All-take : (P : Order → Type 0) (n : ℕ) (xs : List Order) → All P xs → All P (take n xs)
All-take P zero xs h = tt
All-take P (suc n) [] h = tt
All-take P (suc n) (x ∷ xs) h = (h.0, All-take P n xs h.1)

end_cursor_floored :
    (codec : Codec) (o : Option Order) → end_cursor_of codec o ≡ cursor_of (floored codec) o
end_cursor_floored codec none = refl
end_cursor_floored codec (some o) = refl

abbrev pub from_page : ℕ → Page Order → OrdersConnection
from_page total p = record {
  nodes = map node_of p.items;
  has_next_page = p.has_next;
  end_cursor = p.next_cursor;
  total_count = total;
}

pub connection_floored :
    (codec : Codec) (limit total : ℕ) (xs : List Order)
    → connection_of codec limit total xs ≡ from_page total (page_of (floored codec) limit xs)
connection_floored codec limit total xs =
    rw
      (end_cursor_floored codec (
        last? (
          if ltb limit (length (take (suc limit) xs))
          then take limit (take (suc limit) xs)
          else take (suc limit) xs)))
      refl
