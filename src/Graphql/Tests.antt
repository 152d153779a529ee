-- ===== src/Graphql/Tests.antt =====
-- A buyer with two orders of the same millisecond reads them through src/graphql.
use e_commerce_order_platfor.Common.{
  ℕ, ◌≡◌, refl, false, Option, none, some, List, [], ◌∷◌, map, select, arith,
}
use e_commerce_order_platfor.Common.Int.{pos}
use e_commerce_order_platfor.Database.{Uuid, EOrderStatus, Order, OrderItem, Product}
use e_commerce_order_platfor.Runtime.{App}
use e_commerce_order_platfor.Auth.{ERoles, AuthUser}
use e_commerce_order_platfor.Pagination.{
  order_cursor, Text, CursorPayload, Codec, Fields, fields_of,
}
use e_commerce_order_platfor.Pagination.Walk.{IsNewestFirst}
use e_commerce_order_platfor.Graphql.{
  OrderModel, OrdersFilterInput, matching, node_of, end_cursor_of, find_orders,
}
use e_commerce_order_platfor.Graphql.Pages.{all_nodes}
use e_commerce_order_platfor.Graphql.Walk.{all_nodes_complete}
use e_commerce_order_platfor.Graphql.Skips.{shows, same_millisecond_is_skipped}
use e_commerce_order_platfor.Graphql.Loaders.{
  item_order_id, payment_order_id, order_items_by_order_id_loader,
}
use e_commerce_order_platfor.Graphql.Batches.{has_key}
use e_commerce_order_platfor.Graphql.Resolvers.{Load, items, payments, item_model, payment_model}
use e_commerce_order_platfor.Graphql.Resolved.{IsLoading, order_fields_lem}

-- A cursor of two characters.
abbrev parse_pair : Text → Option Fields
parse_pair [] = none
parse_pair (i ∷ []) = none
parse_pair (i ∷ t ∷ []) = some (record { id = some i; created_at = some t })
parse_pair (i ∷ t ∷ u ∷ rest) = none

abbrev codec : Codec
codec = record { stringify = λ c. c.id ∷ c.created_at ∷ []; parse = parse_pair }

reads_back : (c : CursorPayload) → codec.parse (codec.stringify c) ≡ some (fields_of c)
reads_back c = refl

abbrev order_at : Uuid → ℕ → EOrderStatus → Order
order_at i now status = record {
  id = i;
  status = status;
  items_subtotal = 0;
  items_discount_total = 0;
  shipping_amount = 0;
  order_discount_amount = 0;
  total_amount = pos 0;
  idempotency_key = i;
  user_id = 1;
  status_version = 0;
  created_at = now;
  updated_at = now;
  processed_at = none;
}

abbrev item : OrderItem
item = record {
  id = 70;
  unit_price = 5;
  discount_amount = 0;
  quantity = 2;
  order_id = 101;
  product_id = 10;
}

abbrev pen : Product
pen = record {
  id = 10;
  name = "pen";
  price = 5;
  description = "";
  stock = 3;
  created_at = 1;
  updated_at = 1;
}

abbrev app_with : List Order → App
app_with orders = record {
  session = record {
    db = record {
      users = [];
      products = pen ∷ [];
      orders = orders;
      order_items = item ∷ [];
      payments = [];
      outbox_events = [];
      processed_messages = [];
      files = [];
      product_images = [];
    };
    tx = none;
    stranded = 0;
  };
  orders_created = 0;
  orders_failed = 0;
  status_changes = [];
  audit = [];
}

abbrev buyer : AuthUser
buyer = record { sub = 1; roles = some (ERoles.user ∷ []); scopes = none }

abbrev only_pending : Option OrdersFilterInput
only_pending =
    some (record { status = some EOrderStatus.pending; date_from = none; date_to = none })

abbrev mixed : App
mixed = app_with (
    order_at 100 8250 EOrderStatus.pending
    ∷ order_at 101 9700 EOrderStatus.pending
    ∷ order_at 102 9700 EOrderStatus.paid
    ∷ [])

all_nodes_complete_example :
    (all_nodes codec buyer only_pending mixed 1 3 none
      ≡ map node_of (matching buyer only_pending mixed))
    × IsNewestFirst (matching buyer only_pending mixed)
all_nodes_complete_example =
    all_nodes_complete codec buyer only_pending mixed 0 reads_back refl
      ((refl, (refl, tt)), ((refl, tt), (tt, tt))) ((refl, tt), (tt, tt))

abbrev newer : Order
newer = order_at 101 9700 EOrderStatus.pending

abbrev older : Order
older = order_at 100 9300 EOrderStatus.pending

abbrev close : App
close = app_with (older ∷ newer ∷ [])

same_millisecond_is_skipped_example :
    shows 100 (all_nodes codec buyer none close 1 5 (end_cursor_of codec (some newer))) ≡ false
same_millisecond_is_skipped_example =
    same_millisecond_is_skipped codec buyer none close 0 5 older newer reads_back refl
      ((refl, tt), (tt, tt)) refl (omega arith)

shown_first : all_nodes codec buyer none close 1 5 none ≡ node_of newer ∷ []
unfolding find_orders
shown_first = refl

abbrev load : Load
load V batch ks = batch ks

load-IsLoading : IsLoading load
unfolding IsLoading
load-IsLoading V batch f h ks = h ks

abbrev nodes : List OrderModel
nodes = node_of newer ∷ node_of older ∷ []

order_fields_lem_example :
    (items load close.session.db nodes
      ≡ map
          (λ o. map item_model (select (has_key item_order_id o.id) close.session.db.order_items))
          nodes)
    × (payments load close.session.db nodes
        ≡ map
            (λ o.
              map payment_model (select (has_key payment_order_id o.id) close.session.db.payments))
            nodes)
order_fields_lem_example = order_fields_lem load close.session.db nodes load-IsLoading

items_of_newer : items load close.session.db nodes ≡ (item_model item ∷ []) ∷ [] ∷ []
unfolding items order_items_by_order_id_loader
items_of_newer = refl
