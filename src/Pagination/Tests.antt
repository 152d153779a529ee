-- ===== src/Pagination/Tests.antt =====
-- Three orders in pages of two (src/orders/orders.service.ts), with cursors of a toy codec.
use e_commerce_order_platfor.Common.{
  ℕ, suc, ◌≡◌, refl, ◌&&◌, Option, none, some, List, [], ◌∷◌, length, find,
}
use e_commerce_order_platfor.Common.Int.{pos}
use e_commerce_order_platfor.Database.{Uuid, EOrderStatus, Order}
use e_commerce_order_platfor.Runtime.{App}
use e_commerce_order_platfor.Auth.{ERoles, AuthUser}
use e_commerce_order_platfor.Orders.Manage.{has_id, orders_of, may_read}
use e_commerce_order_platfor.Pagination.{
  order_cursor, Text, CursorPayload, Codec, Fields, fields_of, order_by_newest,
}
use e_commerce_order_platfor.Pagination.Walk.{IsNewestFirst}
use e_commerce_order_platfor.Pagination.Listing.{pages, readable_orders, find_all_complete}

-- A cursor of two characters.
abbrev parse_pair : Text → Option Fields
parse_pair [] = none
parse_pair (i ∷ []) = none
parse_pair (i ∷ t ∷ []) = some (record { id = some i; created_at = some t })
parse_pair (i ∷ t ∷ u ∷ rest) = none

abbrev codec : Codec
codec = record { stringify = λ c. c.id ∷ c.created_at ∷ []; parse = parse_pair }

reads_back : (c : CursorPayload) → codec.parse (codec.stringify c) ≡ some (fields_of c)
reads_back c = refl

abbrev order_at : Uuid → Uuid → ℕ → Order
order_at i user now = record {
  id = i;
  status = EOrderStatus.pending;
  items_subtotal = 0;
  items_discount_total = 0;
  shipping_amount = 0;
  order_discount_amount = 0;
  total_amount = pos 0;
  idempotency_key = i;
  user_id = user;
  status_version = 0;
  created_at = now;
  updated_at = now;
  processed_at = none;
}

abbrev three : List Order
three = order_at 102 1 9 ∷ order_at 101 1 8 ∷ order_at 100 1 8 ∷ []

abbrev app : App
app = record {
  session = record {
    db = record {
      users = [];
      products = [];
      orders = order_at 100 1 8 ∷ order_at 103 2 8 ∷ order_at 102 1 9 ∷ order_at 101 1 8 ∷ [];
      order_items = [];
      payments = [];
      outbox_events = [];
      processed_messages = [];
      files = [];
      product_images = [];
    };
    tx = none;
    stranded = 0;
  };
  orders_created = 0;
  orders_failed = 0;
  status_changes = [];
  audit = [];
}

abbrev buyer : AuthUser
buyer = record { sub = 1; roles = some (ERoles.user ∷ []); scopes = none }

find_all_complete_example :
    let listed =
      pages codec buyer app 2 (suc (length (order_by_newest (readable_orders buyer app)))) none in
    IsNewestFirst listed
    × (find (has_id 101) listed ≡ find (λ o. has_id 101 o && may_read buyer o) (orders_of app))
find_all_complete_example =
    find_all_complete codec buyer app 1 101 reads_back
      ((refl, (refl, (refl, tt))), ((refl, (refl, tt)), ((refl, tt), (tt, tt))))
