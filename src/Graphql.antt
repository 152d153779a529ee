-- ===== src/Graphql.antt =====
-- The orders of the GraphQL API (src/graphql/services/gql-orders.service.ts, src/graphql/models,
-- src/graphql/utils). `created_at` of an order is in microseconds here, as the database keeps it; a date
-- of JavaScript has milliseconds. A cursor is the base64 of JSON, as in Pagination.
pub mod Loaders
pub mod Batches
pub mod Resolvers
pub mod Resolved
pub mod Pages
pub mod Walk
pub mod Skips
mod Tests
use e_commerce_order_platfor.Common.{
  ⊤, ℕ, suc, ◌*◌, ◌/◌, String, Bool, true, false, not, ◌&&◌, ◌||◌, Option, none, some, List, [],
  ◌∷◌, map, length, take, last?, select, find, Action, pure, throw, throw_if, gets, or_throw, ◌>>=◌,
  ◌>>◌, Result, ok, err, text, about, plain, forbidden, not_found, or_default, ltb, leb, ◌==◌,
  if◌then◌else◌,
}
use e_commerce_order_platfor.Common.Int.{ℤ}
use package.text.Mathlib.Text.{◌==◌ as str_eq}
use e_commerce_order_platfor.Database.{Uuid, Order, EOrderStatus, EPaymentStatus, same_status}
use e_commerce_order_platfor.Runtime.{App}
use e_commerce_order_platfor.Auth.{AuthUser, is_staff, some_of}
use e_commerce_order_platfor.Orders.Manage.{orders_of, has_id}
use e_commerce_order_platfor.Pagination.{
  order_cursor, Text, CursorPayload, Codec, Fields, encode_cursor, order_by_newest, to_js_date,
}

pub record OrderItemModel : Type 0 where
  pub id : Uuid
  pub quantity : ℕ
  pub unit_price : ℕ
  pub product_id : Uuid

pub record PaymentModel : Type 0 where
  pub id : Uuid
  pub status : EPaymentStatus
  pub paid_at : Option ℕ
  pub paid_amount : ℤ

-- `items` and `payments` are none when the relations are not loaded.
pub record OrderModel : Type 0 where
  pub id : Uuid
  pub status : EOrderStatus
  pub created_at : ℕ
  pub total_amount : ℤ
  pub user_id : Uuid
  pub items : Option (List OrderItemModel)
  pub payments : Option (List PaymentModel)

pub record OrdersConnection : Type 0 where
  pub nodes : List OrderModel
  pub has_next_page : Bool
  pub end_cursor : Option Text
  pub total_count : ℕ

pub record OrdersFilterInput : Type 0 where
  pub status : Option EOrderStatus
  pub date_from : Option ℕ
  pub date_to : Option ℕ

-- An empty cursor is none.
pub record PaginationCursorInput : Type 0 where
  pub limit : ℕ
  pub cursor : Option Text

abbrev pub has_read_scope : AuthUser → Bool
has_read_scope u = some_of (λ s. str_eq s "order:read") u.scopes

abbrev pub check_admin_access_to_read : AuthUser → Action App ⊤
check_admin_access_to_read u =
    throw_if (is_staff u.roles && not (has_read_scope u))
      (forbidden (text "Access denied: missing order:read scope"))

-- The clause on the user; the join finds the user of the order, which its foreign key guarantees.
abbrev pub is_visible : AuthUser → Order → Bool
is_visible u o = is_staff u.roles || o.user_id == u.sub

abbrev pub order_mapper : Order → OrderModel
order_mapper o = record {
  id = o.id;
  status = o.status;
  created_at = to_js_date o.created_at;
  total_amount = o.total_amount;
  user_id = o.user_id;
  items = none;
  payments = none;
}

unfoldable pub find_order : AuthUser → Uuid → Action App OrderModel
find_order u i = do
  check_admin_access_to_read u
  order ← gets (λ w. find (λ o. has_id i o && is_visible u o) (orders_of w))
  found ← or_throw order (not_found (about "Order not found: " i ""))
  pure (order_mapper found)

abbrev has_status : Option EOrderStatus → Order → Bool
has_status none o = true
has_status (some s) o = same_status o.status s

abbrev from_date : Option ℕ → Order → Bool
from_date none o = true
from_date (some t) o = leb t o.created_at

abbrev to_date : Option ℕ → Order → Bool
to_date none o = true
to_date (some t) o = leb o.created_at t

abbrev pub passes : Option OrdersFilterInput → Order → Bool
passes none o = true
passes (some f) o = has_status f.status o && from_date f.date_from o && to_date f.date_to o

-- The rows of the query before the cursor, newest first.
abbrev pub matching : AuthUser → Option OrdersFilterInput → App → List Order
matching u filter w =
    order_by_newest (select (λ o. is_visible u o && passes filter o) (orders_of w))

-- `pagination?.limit || 20`
abbrev pub limit_of : Option PaginationCursorInput → ℕ
limit_of none = 20
limit_of (some p) = if p.limit == 0 then 20 else p.limit

abbrev pub cursor_in : Option PaginationCursorInput → Option Text
cursor_in none = none
cursor_in (some p) = p.cursor

-- `order.createdAt < :createdAt OR (order.createdAt = :createdAt AND order.id < :id)`, where a comparison
-- with an absent value is not true.
abbrev pub is_past : Fields → Order → Bool
is_past f o =
    let earlier = some_is (λ t. ltb o.created_at t) f.created_at in
    let same = some_is (λ t. o.created_at == t) f.created_at in
    earlier || (same && some_is (λ i. ltb o.id i) f.id)
  where
    some_is : (ℕ → Bool) → Option ℕ → Bool
    some_is p none = false
    some_is p (some n) = p n

abbrev pub decode_cursor : Codec → Text → Result Fields
decode_cursor codec cursor = or_syntax_error (codec.parse cursor)
  where
    or_syntax_error : Option Fields → Result Fields
    or_syntax_error none = err (plain (text "SyntaxError"))
    or_syntax_error (some f) = ok f

abbrev pub rows_past : List Order → Result Fields → Result (List Order)
rows_past rows (err e) = err e
rows_past rows (ok f) = ok (select (is_past f) rows)

abbrev pub rows_at : Codec → List Order → Option Text → Result (List Order)
rows_at codec rows none = ok rows
rows_at codec rows (some cursor) = rows_past rows (decode_cursor codec cursor)

abbrev pub payload_of : Order → CursorPayload
payload_of o = record { id = o.id; created_at = to_js_date o.created_at }

abbrev pub end_cursor_of : Codec → Option Order → Option Text
end_cursor_of codec none = none
end_cursor_of codec (some o) = some (encode_cursor codec (payload_of o))

abbrev pub node_of : Order → OrderModel
node_of o = record (order_mapper o) { items = some []; payments = some [] }

-- From `getRawAndEntities` on; `matched` are the rows of the query without its limit.
abbrev pub connection_of : Codec → ℕ → ℕ → List Order → OrdersConnection
connection_of codec limit total_count matched =
    let orders = take (suc limit) matched in
    let has_next_page = ltb limit (length orders) in
    let shown = if has_next_page then take limit orders else orders in
    record {
      nodes = map node_of shown;
      has_next_page = has_next_page;
      end_cursor = end_cursor_of codec (last? shown);
      total_count = total_count;
    }

unfoldable pub find_orders :
    Codec
    → AuthUser
    → Option OrdersFilterInput
    → Option PaginationCursorInput
    → Action App OrdersConnection
find_orders codec u filter pagination = do
  check_admin_access_to_read u
  rows ← gets (matching u filter)
  matched ← λ w. (rows_at codec rows (cursor_in pagination), w)
  pure (connection_of codec (limit_of pagination) (length rows) matched)
