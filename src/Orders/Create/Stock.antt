-- ===== src/Orders/Create/Stock.antt =====
-- The stock of the products over step 5 of `create` (src/orders/orders.service.ts).
use e_commerce_order_platfor.Common.{
  ⊤, ℕ, ◌+◌, ◌≡◌, ◌≤◌, refl, inl, inr, Bool, true, false, Option, none, some, List, [], ◌∷◌, ok,
  arith, Bool-cases, Option-cases, find, any, update_where, All, Distinct, Distinct-update_where,
  find-update_where, find_holds, ◌==◌, ==_iff, if◌then◌else◌,
}
use e_commerce_order_platfor.Database.{Uuid, Product}
use e_commerce_order_platfor.Orders.Create.Steps.{
  OrderItemDto, is_product, has_stock, less_stock, take_stock,
}

-- The quantity of the product `k` in a list of items.
abbrev pub ordered : Uuid → List OrderItemDto → ℕ
ordered k [] = 0
ordered k (i ∷ items) = (if k == i.product_id then i.quantity else 0) + ordered k items

-- The primary key of the products table.
abbrev pub same_product : Product → Product → Bool
same_product p q = q.id == p.id

same_product_swap : (p q : Product) → same_product p q ≡ same_product q p
same_product_swap p q = ground arith

abbrev pub HasUniqueIds : List Product → Type 0
HasUniqueIds ps = Distinct same_product ps

-- A row before and after: `n` pieces were taken from its stock, and no other column has changed.
abbrev pub Takes : ℕ → Option Product → Option Product → Type 0
Takes n none none = ⊤
Takes n (some p) (some q) = p ≡ record q { stock = q.stock + n }
Takes n none (some q) = ⊥
Takes n (some p) none = ⊥

Takes-trans : (m n : ℕ) (a b c : Option Product) → Takes m a b → Takes n b c → Takes (m + n) a c
Takes-trans m n none none none h k = tt
Takes-trans m n (some p) (some q) (some r) h k = ground arith
Takes-trans m n none none (some r) h k = absurd k
Takes-trans m n none (some q) c h k = absurd h
Takes-trans m n (some p) none c h k = absurd h
Takes-trans m n (some p) (some q) none h k = absurd k

find-All :
    {A : Type 0} (P : A → Type 0) (p : A → Bool) (xs : List A) (a : A)
    → All P xs
    → find p xs ≡ some a
    → P a
find-All P p [] a h e = cc
find-All P p (x ∷ xs) a h e = elim (Bool-cases (p x)) [
  | inl hit ↦ let same : x ≡ a = ground arith in rw (← same) h.0
  | inr miss ↦ find-All P p xs a h.1 (ground arith)
]

-- Where the guard of the UPDATE passes for some row, that row is the product with the id.
has_stock_found :
    (k q : ℕ) (ps : List Product)
    → HasUniqueIds ps
    → any (has_stock k q) ps ≡ true
    → (p : Product) × (find (is_product k) ps ≡ some p) × (q ≤ p.stock)
has_stock_found k q [] d h = absurd (cc)
has_stock_found k q (x ∷ xs) d h = elim (Bool-cases (has_stock k q x)) [
  | inl hit ↦ (x, ground arith, ground arith)
  | inr miss ↦
      let (p, found, enough) = has_stock_found k q xs d.1 (ground arith) in
      let apart = find-All (λ y. same_product x y ≡ false) (is_product k) xs p d.0 found in
      (p, ground (arith, find_holds (is_product k) xs p found), enough)
]

-- One UPDATE whose guard passes takes exactly the quantity, from that product alone.
update-Takes :
    (k i q : ℕ) (ps : List Product)
    → HasUniqueIds ps
    → any (has_stock i q) ps ≡ true
    → Takes
        (if k == i then q else 0)
        (find (is_product k) ps)
        (find (is_product k) (update_where (has_stock i q) (less_stock q) ps))
update-Takes k i q ps d h =
    let seen = find-update_where (is_product k) (has_stock i q) (less_stock q) (λ p. refl) ps in
    let (r, found, enough) = has_stock_found i q ps d h in
    elim (Option-cases (find (is_product k) ps)) [
      | inl missing ↦ rw (seen, missing) tt
      | inr (p, e) ↦
          rw (seen, e)
            (elim (Bool-cases (k == i)) [
              | inl same ↦
                  let found' : find (is_product k) ps ≡ some r = rw ((==_iff k i).0 same) found in
                  ground (arith, find_holds (is_product k) ps p e)
              | inr other ↦ ground (arith, find_holds (is_product k) ps p e)
            ])
    ]

-- Taking the stock of the items takes of each product the quantity that the items order of it.
pub take_stock-Takes :
    (k : Uuid) (items : List OrderItemDto) (ps : List Product)
    → HasUniqueIds ps
    → (take_stock items ps).0 ≡ ok tt
    → Takes (ordered k items) (find (is_product k) ps) (find (is_product k) (take_stock items ps).1)
unfolding take_stock
take_stock-Takes k [] ps d h = elim (Option-cases (find (is_product k) ps)) [
  | inl e ↦ rw e tt
  | inr (p, e) ↦ rw e (ground arith)
]
take_stock-Takes k (i ∷ items) ps d h =
    elim (Bool-cases (any (has_stock i.product_id i.quantity) ps)) [
      | inr refused ↦ absurd (ground arith)
      | inl passed ↦
          let ps' = update_where (has_stock i.product_id i.quantity) (less_stock i.quantity) ps in
          let d' =
            Distinct-update_where same_product same_product_swap (has_stock i.product_id i.quantity)
              (less_stock i.quantity) (λ p q. refl) ps d in
          rw passed (
            Takes-trans (if k == i.product_id then i.quantity else 0) (ordered k items)
              (find (is_product k) ps) (find (is_product k) ps')
              (find (is_product k) (take_stock items ps').1)
              (update-Takes k i.product_id i.quantity ps d passed)
              (take_stock-Takes k items ps' d' (ground arith)))
    ]
