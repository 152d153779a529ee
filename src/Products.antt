-- ===== src/Products.antt =====
-- `ProductsService.findProducts` of src/products/products.service.ts. PostgreSQL's ILIKE is an argument.
pub mod Search
mod Tests
use Prim.Native.String.{◌++◌ as append_text}
use package.text.Mathlib.Text.{◌==◌ as str_eq}
use e_commerce_order_platfor.Common.{
  ℕ, ◌-◌, String, Bool, true, false, Option, none, some, List, [], ◌∷◌, length, map, select, any,
  Result, ◌==◌, if◌then◌else◌,
}
use e_commerce_order_platfor.Database.{Uuid, Product, OrderItem, Database}
use e_commerce_order_platfor.Files.Text.{is_empty, trim}
use e_commerce_order_platfor.Pagination.{
  Text, Codec, Page, HasCursor, Query, order_by_newest, paginate_query_builder_by_cursor,
}
use e_commerce_order_platfor.Pagination.Complete.{map_page}

-- The fields are a list of names that the validation allows.
pub record FindProductsQueryDto : Type 0 where
  pub limit : Option ℕ
  pub cursor : Option Text
  pub q : Option String
  pub fields : Option (List String)

pub record ItemView : Type 0 where
  pub id : Uuid
  pub quantity : ℕ
  pub unit_price : ℕ
  pub discount_amount : ℕ

-- A product as far as its columns are selected.
pub record ProductView : Type 0 where
  pub id : Uuid
  pub created_at : ℕ
  pub name : Option String
  pub price : Option ℕ
  pub description : Option String
  pub stock : Option ℕ
  pub updated_at : Option ℕ
  pub items : Option (List ItemView)

instance abbrev pub product_cursor : HasCursor Product
product_cursor = record { cursor_key = λ p. record { id = p.id; created_at = p.created_at } }

abbrev pub includes_field : String → List String → Bool
includes_field f fields = any (str_eq f) fields

-- Every direct field where no field is named.
abbrev pub is_selected : Option (List String) → String → Bool
is_selected none f = true
is_selected (some []) f = true
is_selected (some (x ∷ xs)) f = includes_field f (x ∷ xs)

abbrev pub joins_items : Option (List String) → Bool
joins_items none = false
joins_items (some fields) = includes_field "items" fields

abbrev pub items_of : Database → Product → List OrderItem
items_of d p = select (λ i. i.product_id == p.id) d.order_items

abbrev item_view : OrderItem → ItemView
item_view i = record {
  id = i.id;
  quantity = i.quantity;
  unit_price = i.unit_price;
  discount_amount = i.discount_amount;
}

abbrev selected : {A : Type 0} → Bool → A → Option A
selected true a = some a
selected false a = none

abbrev pub product_view : Option (List String) → Database → Product → ProductView
product_view fields d p = record {
  id = p.id;
  created_at = p.created_at;
  name = selected (is_selected fields "name") p.name;
  price = selected (is_selected fields "price") p.price;
  description = selected (is_selected fields "description") p.description;
  stock = selected (is_selected fields "stock") p.stock;
  updated_at = selected (is_selected fields "updatedAt") p.updated_at;
  items = selected (joins_items fields) (map item_view (items_of d p));
}

-- `query.q?.trim()`, where an empty text does not filter.
abbrev pub matches : (String → String → Bool) → Option String → Product → Bool
matches ilike none p = true
matches ilike (some q) p =
    if is_empty (trim q) then true else ilike p.name (append_text "%" (append_text (trim q) "%"))

abbrev pub matching_products : (String → String → Bool) → Option String → Database → List Product
matching_products ilike q d = select (matches ilike q) d.products

-- The raw rows of a product besides the first: a left join gives one row for each item, and at least one.
abbrev pub more_rows : Option (List String) → Database → Product → ℕ
more_rows fields d p = if joins_items fields then length (items_of d p) - 1 else 0

abbrev pub product_pages :
    Codec → (String → String → Bool) → FindProductsQueryDto → Database → Result (Page Product)
product_pages codec ilike query d =
    paginate_query_builder_by_cursor (more_rows query.fields d) codec
      (order_by_newest (matching_products ilike query.q d))
      (record { limit = query.limit; cursor = query.cursor })

-- `findProducts`
unfoldable pub find_products :
    Codec → (String → String → Bool) → FindProductsQueryDto → Database → Result (Page ProductView)
find_products codec ilike query d =
    map_page (product_view query.fields d) (product_pages codec ilike query d)
