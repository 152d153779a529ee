-- ===== src/Graphql/Resolvers.antt =====
-- The fields of an order and of an item (src/graphql/resolvers/orders.resolver.ts). `load` is the package
-- dataloader: it gets a batch function and the keys that the fields of one answer ask for, and gives the
-- value of each key.
use e_commerce_order_platfor.Common.{
  ℕ, String, Option, none, some, List, [], ◌∷◌, map, Result, ok, err, plain, about, Action, pure,
  ◌>>=◌,
}
use e_commerce_order_platfor.Database.{Uuid, Database, User, Product, OrderItem, Payment}
use e_commerce_order_platfor.Graphql.{
  OrderModel, OrderItemModel, PaymentModel, OrdersConnection, OrdersFilterInput,
  PaginationCursorInput, find_orders,
}
use e_commerce_order_platfor.Runtime.{App}
use e_commerce_order_platfor.Auth.{AuthUser}
use e_commerce_order_platfor.Pagination.{Codec}
use e_commerce_order_platfor.Graphql.Loaders.{
  user_by_id_loader, product_by_id_loader, order_items_by_order_id_loader,
  payments_by_order_id_loader,
}

pub record UserModel : Type 0 where
  pub id : Uuid
  pub first_name : String
  pub last_name : String
  pub email : String

pub record ProductModel : Type 0 where
  pub id : Uuid
  pub name : String
  pub price : ℕ
  pub description : String

abbrev pub Load : Type 1
Load = (V : Type 0) → (List Uuid → List V) → List Uuid → List V

abbrev pub item_model : OrderItem → OrderItemModel
item_model x = record {
  id = x.id;
  quantity = x.quantity;
  unit_price = x.unit_price;
  product_id = x.product_id;
}

abbrev pub payment_model : Payment → PaymentModel
payment_model p = record {
  id = p.id;
  status = p.status;
  paid_at = p.paid_at;
  paid_amount = p.paid_amount;
}

abbrev pub user_model : User → UserModel
user_model u = record {
  id = u.id;
  first_name = u.first_name;
  last_name = u.last_name;
  email = u.email;
}

-- `productMapper`
abbrev pub product_mapper : Product → ProductModel
product_mapper p = record { id = p.id; name = p.name; price = p.price; description = p.description }

abbrev pub user_or_error : Option User → Uuid → Result UserModel
user_or_error none i = err (plain (about "User not found: " i ""))
user_or_error (some u) i = ok (user_model u)

abbrev pub product_or_error : Option Product → Uuid → Result ProductModel
product_or_error none i = err (plain (about "Product not found: " i ""))
product_or_error (some p) i = ok (product_mapper p)

abbrev pub with_keys : {V W : Type 0} → (V → Uuid → W) → List V → List Uuid → List W
with_keys f [] ks = []
with_keys f (v ∷ vs) [] = []
with_keys f (v ∷ vs) (k ∷ ks) = f v k ∷ with_keys f vs ks

abbrev pub order_id : OrderModel → Uuid
order_id o = o.id

abbrev pub order_user_id : OrderModel → Uuid
order_user_id o = o.user_id

abbrev pub item_product_id : OrderItemModel → Uuid
item_product_id x = x.product_id

-- The field `items` of all orders of an answer.
unfoldable pub items : Load → Database → List OrderModel → List (List OrderItemModel)
items load d orders =
    map (map item_model)
      (load (List OrderItem) (order_items_by_order_id_loader d) (map order_id orders))

unfoldable pub payments : Load → Database → List OrderModel → List (List PaymentModel)
payments load d orders =
    map (map payment_model)
      (load (List Payment) (payments_by_order_id_loader d) (map order_id orders))

unfoldable pub user : Load → Database → List OrderModel → List (Result UserModel)
user load d orders =
    let ids = map order_user_id orders in
    with_keys user_or_error (load (Option User) (user_by_id_loader d) ids) ids

-- The field `product` of all items of an answer.
unfoldable pub product : Load → Database → List OrderItemModel → List (Result ProductModel)
product load d xs =
    let ids = map item_product_id xs in
    with_keys product_or_error (load (Option Product) (product_by_id_loader d) ids) ids

-- A node as the query `orders` answers it: its fields are resolved apart.
abbrev pub listed : OrderModel → OrderModel
listed o = record {
  id = o.id;
  status = o.status;
  created_at = o.created_at;
  total_amount = o.total_amount;
  user_id = o.user_id;
  items = some [];
  payments = some [];
}

-- The query `orders`; its guard finds the user of the request.
unfoldable pub orders :
    Codec
    → AuthUser
    → Option OrdersFilterInput
    → Option PaginationCursorInput
    → Action App OrdersConnection
orders codec u filter pagination = do
  result ← find_orders codec u filter pagination
  pure (record result { nodes = map listed result.nodes })
