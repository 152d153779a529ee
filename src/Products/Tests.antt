-- ===== src/Products/Tests.antt =====
-- Three products (src/products/products.service.ts), of which the newest was ordered twice, in pages of two.
use e_commerce_order_platfor.Common.{
  ℕ, ◌≡◌, refl, String, Bool, true, Option, none, some, List, [], ◌∷◌, map, take, ok, arith,
}
use e_commerce_order_platfor.Database.{Uuid, Product, OrderItem, Database}
use e_commerce_order_platfor.Pagination.{Text, CursorPayload, Codec, Fields, Page, fields_of}
use e_commerce_order_platfor.Products.{product_cursor, ProductView, product_view, find_products}
use e_commerce_order_platfor.Products.Search.{query_at, joined_products_repeat}

-- A cursor of two characters.
abbrev parse_pair : Text → Option Fields
parse_pair [] = none
parse_pair (i ∷ []) = none
parse_pair (i ∷ t ∷ []) = some (record { id = some i; created_at = some t })
parse_pair (i ∷ t ∷ u ∷ rest) = none

abbrev codec : Codec
codec = record { stringify = λ c. c.id ∷ c.created_at ∷ []; parse = parse_pair }

reads_back : (c : CursorPayload) → codec.parse (codec.stringify c) ≡ some (fields_of c)
reads_back c = refl

abbrev product_at : Uuid → ℕ → Product
product_at i now = record {
  id = i;
  name = "tea";
  price = 500;
  description = "green";
  stock = 5;
  created_at = now;
  updated_at = now;
}

abbrev ordered : Uuid → OrderItem
ordered i = record {
  id = i;
  unit_price = 500;
  discount_amount = 0;
  quantity = 1;
  order_id = 100;
  product_id = 1;
}

abbrev newest : Product
newest = product_at 1 9

abbrev older : List Product
older = product_at 2 8 ∷ product_at 3 7 ∷ []

abbrev shop : Database
shop = record {
  users = [];
  products = newest ∷ older;
  orders = [];
  order_items = ordered 50 ∷ ordered 51 ∷ [];
  payments = [];
  outbox_events = [];
  processed_messages = [];
  files = [];
  product_images = [];
}

abbrev everything : String → String → Bool
everything name pattern = true

abbrev names : Option (List String)
names = some ("name" ∷ [])

abbrev with_items : Option (List String)
with_items = some ("name" ∷ "items" ∷ [])

joined_products_repeat_example :
    let fetch =
      λ (c : Option Text). find_products codec everything (query_at 2 none with_items c) shop in
    (p : Page ProductView) × (fetch none ≡ ok p)
    × (p.items ≡ map (product_view with_items shop) (take 2 (newest ∷ older)))
    × (p.has_next ≡ true)
    × (fetch p.next_cursor ≡ ok p)
joined_products_repeat_example =
    joined_products_repeat codec everything none with_items shop 1 newest older (product_at 2 8)
      reads_back ((refl, (refl, tt)), ((refl, tt), (tt, tt))) refl refl (omega arith) (omega arith)
      refl (omega arith)
