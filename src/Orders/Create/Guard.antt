-- ===== src/Orders/Create/Guard.antt =====
-- The guards of `create` (src/orders/orders.service.ts) before the first write: the test for
-- duplicates and the check of the stock. What passes them passes the guarded UPDATEs of step 5.
use e_commerce_order_platfor.Common.{
  ⊤, ℕ, ◌≡◌, ◌≤◌, refl, ◌∙◌, inl, inr, Bool, true, false, not, some, List, [], ◌∷◌, map, ok, arith,
  Bool-cases, Option-cases, find, any, select, update_where, All, length, length-select-le, mem,
  ◌==◌, ltb,
}
use e_commerce_order_platfor.Database.{Uuid, Product, Database}
use e_commerce_order_platfor.Orders.Create.Steps.{
  OrderItemDto, is_product, has_stock, less_stock, take_stock, check_stock, unique, CreateOrderDto,
  product_ids,
}
use e_commerce_order_platfor.Orders.Create.Parts.{locked_rows}

-- No id stands twice.
abbrev pub NoTwins : List Uuid → Type 0
NoTwins [] = ⊤
NoTwins (x ∷ xs) = All (λ y. (y == x) ≡ false) xs × NoTwins xs

length-unique-le : (xs : List Uuid) → length (unique xs) ≤ length xs
length-unique-le [] = omega arith
length-unique-le (x ∷ xs) =
    omega (arith, length-select-le (λ y. not (y == x)) (unique xs), length-unique-le xs)

select_keeps :
    (x : Uuid) (xs : List Uuid)
    → length (select (λ y. not (y == x)) xs) ≡ length xs
    → All (λ y. (y == x) ≡ false) xs
select_keeps x [] h = tt
select_keeps x (y ∷ xs) h = (
  ground (arith, length-select-le (λ z. not (z == x)) xs),
  select_keeps x xs (ground (arith, length-select-le (λ z. not (z == x)) xs)),
)

All-select :
    (x z : Uuid) (xs : List Uuid)
    → (z == x) ≡ false
    → All (λ y. (y == x) ≡ false) (select (λ y. not (y == z)) xs)
    → All (λ y. (y == x) ≡ false) xs
All-select x z [] e h = tt
All-select x z (y ∷ xs) e h = elim (Bool-cases (y == z)) [
  | inl same ↦ (ground arith, All-select x z xs e (ground arith))
  | inr other ↦ (ground arith, All-select x z xs e (ground arith))
]

All-unique :
    (x : Uuid) (xs : List Uuid)
    → All (λ y. (y == x) ≡ false) (unique xs)
    → All (λ y. (y == x) ≡ false) xs
All-unique x [] h = tt
All-unique x (z ∷ xs) h = (h.0, All-unique x xs (All-select x z (unique xs) h.0 h.1))

-- The program compares two lengths; they agree exactly where no id stands twice.
length-NoTwins : (xs : List Uuid) → length (unique xs) ≡ length xs → NoTwins xs
length-NoTwins [] h = tt
length-NoTwins (x ∷ xs) h =
    let kept = length-select-le (λ y. not (y == x)) (unique xs) in
    let short = length-unique-le xs in
    (All-unique x xs (select_keeps x (unique xs) (omega arith)), length-NoTwins xs (omega arith))

-- A search in the locked rows is a search in the table.
find-select :
    (k : Uuid) (q : Product → Bool) (ps : List Product)
    → ((p : Product) → is_product k p ≡ true → q p ≡ true)
    → find (is_product k) (select q ps) ≡ find (is_product k) ps
find-select k q [] h = refl
find-select k q (p ∷ ps) h = ground (arith, h p, find-select k q ps h)

abbrev pub HasStock : List Product → OrderItemDto → Type 0
HasStock ps i = any (has_stock i.product_id i.quantity) ps ≡ true

any-update_other :
    (i q j r : ℕ) (ps : List Product)
    → (i == j) ≡ false
    → any (has_stock i q) (update_where (has_stock j r) (less_stock r) ps) ≡ any (has_stock i q) ps
any-update_other i q j r [] h = refl
any-update_other i q j r (p ∷ ps) h = ground (arith, any-update_other i q j r ps h)

HasStock-update_other :
    (j r : ℕ) (items : List OrderItemDto) (ps : List Product)
    → All (λ y. (y == j) ≡ false) (map (λ i. i.product_id) items)
    → All (HasStock ps) items
    → All (HasStock (update_where (has_stock j r) (less_stock r) ps)) items
HasStock-update_other j r [] ps h e = tt
HasStock-update_other j r (i ∷ items) ps h e = (
  any-update_other i.product_id i.quantity j r ps h.0 ∙ e.0,
  HasStock-update_other j r items ps h.1 e.1,
)

take_stock_accepts :
    (items : List OrderItemDto) (ps : List Product)
    → NoTwins (map (λ i. i.product_id) items)
    → All (HasStock ps) items
    → (take_stock items ps).0 ≡ ok tt
unfolding take_stock
take_stock_accepts [] ps d h = refl
take_stock_accepts (i ∷ items) ps d h = rw (h.0) (
    take_stock_accepts items
      (update_where (has_stock i.product_id i.quantity) (less_stock i.quantity) ps) d.1
      (HasStock-update_other i.product_id i.quantity items ps d.0 h.1))

any_of_find :
    (k q : ℕ) (ps : List Product) (p : Product)
    → find (is_product k) ps ≡ some p
    → ltb p.stock q ≡ false
    → any (has_stock k q) ps ≡ true
any_of_find k q [] p e h = absurd (cc)
any_of_find k q (x ∷ ps) p e h = ground (arith, any_of_find k q ps p)

check_stock-HasStock :
    (rows ps : List Product) (items : List OrderItemDto)
    → All (λ i. find (is_product i.product_id) rows ≡ find (is_product i.product_id) ps) items
    → check_stock rows items ≡ ok tt
    → All (HasStock ps) items
unfolding check_stock
check_stock-HasStock rows ps [] h e = tt
check_stock-HasStock rows ps (i ∷ items) h e =
    elim (Option-cases (find (is_product i.product_id) rows)) [
      | inl missing ↦ absurd (ground arith)
      | inr (p, found) ↦ (
        any_of_find i.product_id i.quantity ps p (ground arith) (ground arith),
        check_stock-HasStock rows ps items h.1 (ground arith),
      )
    ]

mem-select :
    (a x : Uuid) (xs : List Uuid)
    → (a == x) ≡ false
    → mem a xs ≡ true
    → mem a (select (λ y. not (y == x)) xs) ≡ true
mem-select a x [] e h = h
mem-select a x (y ∷ xs) e h = ground (arith, mem-select a x xs e)

mem-unique : (a : Uuid) (xs : List Uuid) → mem a xs ≡ true → mem a (unique xs) ≡ true
mem-unique a [] h = h
mem-unique a (x ∷ xs) h = ground (arith, mem-unique a xs, mem-select a x (unique xs))

abbrev ids : List OrderItemDto → List Uuid
ids items = map (λ i. i.product_id) items

-- Every item's row is found in the locked rows as in the table.
found_locked :
    (us : List Uuid) (ps : List Product) (items : List OrderItemDto)
    → All (λ i. mem i.product_id us ≡ true) items
    → All
        (λ i.
          find (is_product i.product_id) (select (λ p. mem p.id us) ps)
          ≡ find (is_product i.product_id) ps)
        items
found_locked us ps [] h = tt
found_locked us ps (i ∷ items) h = (
  find-select i.product_id (λ p. mem p.id us) ps (λ p e. ground arith),
  found_locked us ps items h.1,
)

All-mem-cons :
    (x : Uuid) (us : List Uuid) (items : List OrderItemDto)
    → All (λ i. mem i.product_id us ≡ true) items
    → All (λ i. mem i.product_id (x ∷ us) ≡ true) items
All-mem-cons x us [] h = tt
All-mem-cons x us (i ∷ items) h = (ground arith, All-mem-cons x us items h.1)

All-mem : (items : List OrderItemDto) → All (λ i. mem i.product_id (ids items) ≡ true) items
All-mem [] = tt
All-mem (i ∷ items) = (ground arith, All-mem-cons i.product_id (ids items) items (All-mem items))

All-mem-unique :
    (us : List Uuid) (items : List OrderItemDto)
    → All (λ i. mem i.product_id us ≡ true) items
    → All (λ i. mem i.product_id (unique us) ≡ true) items
All-mem-unique us [] h = tt
All-mem-unique us (i ∷ items) h = (mem-unique i.product_id us h.0, All-mem-unique us items h.1)

-- Where no product is listed twice and the locked rows pass the check of the stock, none of the
-- guarded UPDATEs of step 5 can come back empty: its 409 is never thrown in a single transaction.
pub final_guard_passes :
    (dto : CreateOrderDto) (d : Database)
    → length (unique (product_ids dto)) ≡ length (product_ids dto)
    → check_stock (locked_rows dto d) dto.items ≡ ok tt
    → (take_stock dto.items d.products).0 ≡ ok tt
final_guard_passes dto d distinct checked =
    let us = unique (product_ids dto) in
    let listed = All-mem-unique (ids dto.items) dto.items (All-mem dto.items) in
    take_stock_accepts dto.items d.products (length-NoTwins (ids dto.items) distinct) (
      check_stock-HasStock (locked_rows dto d) d.products dto.items
        (found_locked us d.products dto.items listed) checked)
