-- ===== src/Graphql/Loaders.antt =====
-- The batch functions of the loaders (src/graphql/loaders/loaders.factory.ts). A `Map` is a function of
-- its keys.
use e_commerce_order_platfor.Common.{
  Option, none, some, List, [], ◌∷◌, ◌++◌, map, length, select, mem, or_default, ◌==◌,
  if◌then◌else◌,
}
use e_commerce_order_platfor.Database.{Uuid, Database, User, Product, OrderItem, Payment}

abbrev pub Entries : Type 0 → Type 0
Entries V = Uuid → Option V

module _ {V : Type 0} where
  -- `map.set(k, v)`
  abbrev pub set : Uuid → V → Entries V → Entries V
  set k v m = λ i. if k == i then some v else m i

  -- `new Map(rows.map((r) => [r.id, r]))`: a later entry takes the place of an earlier one.
  abbrev pub keyed : (V → Uuid) → List V → Entries V → Entries V
  keyed key [] m = m
  keyed key (r ∷ rs) m = keyed key rs (set (key r) r m)

  abbrev pub no_entries : Entries V
  no_entries i = none

  -- The rows come in the table's order, in which `IN` selects them.
  abbrev pub batch_by_id : (V → Uuid) → List V → List Uuid → List (Option V)
  batch_by_id key rows ids =
      let found = select (λ r. mem (key r) ids) rows in
      let by_id = keyed key found no_entries in if length ids == 0 then [] else map by_id ids

  -- `new Map(ids.map((i) => [i, []]))`
  abbrev pub empty_groups : List Uuid → Entries (List V)
  empty_groups ids = λ i. if mem i ids then some [] else none

  abbrev pub pushed : V → Option (List V) → Option (List V)
  pushed v none = none
  pushed v (some vs) = some (vs ++ v ∷ [])

  -- `map.get(k)?.push(v)`
  abbrev pub push : Uuid → V → Entries (List V) → Entries (List V)
  push k v m = λ i. if k == i then pushed v (m i) else m i

  abbrev pub push_all : (V → Uuid) → List V → Entries (List V) → Entries (List V)
  push_all key [] m = m
  push_all key (r ∷ rs) m = push_all key rs (push (key r) r m)

  abbrev pub batch_groups : (V → Uuid) → List V → List Uuid → List (List V)
  batch_groups key rows ids =
      let found = select (λ r. mem (key r) ids) rows in
      let groups = push_all key found (empty_groups ids) in
      if length ids == 0 then [] else map (λ i. or_default (groups i) []) ids

abbrev pub user_id : User → Uuid
user_id u = u.id

abbrev pub product_id : Product → Uuid
product_id p = p.id

abbrev pub item_order_id : OrderItem → Uuid
item_order_id x = x.order_id

abbrev pub payment_order_id : Payment → Uuid
payment_order_id p = p.order_id

unfoldable pub user_by_id_loader : Database → List Uuid → List (Option User)
user_by_id_loader d ids = batch_by_id user_id d.users ids

unfoldable pub product_by_id_loader : Database → List Uuid → List (Option Product)
product_by_id_loader d ids = batch_by_id product_id d.products ids

unfoldable pub order_items_by_order_id_loader : Database → List Uuid → List (List OrderItem)
order_items_by_order_id_loader d ids = batch_groups item_order_id d.order_items ids

unfoldable pub payments_by_order_id_loader : Database → List Uuid → List (List Payment)
payments_by_order_id_loader d ids = batch_groups payment_order_id d.payments ids
