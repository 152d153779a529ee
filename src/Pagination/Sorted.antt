-- ===== src/Pagination/Sorted.antt =====
-- Rows in the order of src/common/pagination/cursor/paginate-query-builder.ts: newest first.
use e_commerce_order_platfor.Common.{
  ◌≡◌, refl, Bool, true, false, ◌&&◌, List, [], ◌∷◌, select, find, All, Distinct, inl, inr, arith,
  Bool-cases, ◌==◌,
}
use e_commerce_order_platfor.Database.{Uuid}
use e_commerce_order_platfor.Pagination.{
  HasCursor, payload_of, is_after, insert_newest, order_by_newest,
}
use e_commerce_order_platfor.Pagination.Walk.{IsNewestFirst}

module _ {A : Type 0} (P : A → Type 0) where
  pub All-select : (p : A → Bool) (xs : List A) → All P xs → All P (select p xs)
  All-select p [] h = tt
  All-select p (x ∷ xs) h = elim (Bool-cases (p x)) [
    | inl e ↦ rw e (h.0, All-select p xs h.1)
    | inr e ↦ rw e (All-select p xs h.1)
  ]

module _ {A : Type 0} ⦃h : HasCursor A⦄ (P : A → Type 0) where
  All-insert_newest : (x : A) (xs : List A) → P x → All P xs → All P (insert_newest x xs)
  All-insert_newest x [] px h = (px, tt)
  All-insert_newest x (y ∷ xs) px h = elim (Bool-cases (is_after (payload_of x) y)) [
    | inl e ↦ rw e (px, h)
    | inr e ↦ rw e (h.0, All-insert_newest x xs px h.1)
  ]

  pub All-order_by : (xs : List A) → All P xs → All P (order_by_newest xs)
  All-order_by [] h = tt
  All-order_by (x ∷ xs) h = All-insert_newest x (order_by_newest xs) h.0 (All-order_by xs h.1)

module _ {A : Type 0} ⦃h : HasCursor A⦄ where
  abbrev pub same_row : A → A → Bool
  same_row x y = (payload_of y).id == (payload_of x).id

  abbrev pub row_has_id : Uuid → A → Bool
  row_has_id k x = (payload_of x).id == k

  abbrev pub Apart : A → List A → Type 0
  Apart x ys = All (λ y. same_row x y ≡ false) ys

  pub Distinct-select :
      (p : A → Bool) (xs : List A) → Distinct same_row xs → Distinct same_row (select p xs)
  Distinct-select p [] d = tt
  Distinct-select p (x ∷ xs) d = elim (Bool-cases (p x)) [
    | inl e ↦ rw e (All-select (λ y. same_row x y ≡ false) p xs d.0, Distinct-select p xs d.1)
    | inr e ↦ rw e (Distinct-select p xs d.1)
  ]

  older_still :
      (x y : A) (ys : List A)
      → is_after (payload_of x) y ≡ true
      → All (λ z. is_after (payload_of y) z ≡ true) ys
      → All (λ z. is_after (payload_of x) z ≡ true) ys
  older_still x y [] e h = tt
  older_still x y (z ∷ ys) e h = (ground (arith, h.0), older_still x y ys e h.1)

  insert_newest-IsNewestFirst :
      (x : A) (ys : List A) → Apart x ys → IsNewestFirst ys → IsNewestFirst (insert_newest x ys)
  insert_newest-IsNewestFirst x [] a o = (tt, tt)
  insert_newest-IsNewestFirst x (y ∷ ys) a o = elim (Bool-cases (is_after (payload_of x) y)) [
    | inl e ↦ rw e ((e, older_still x y ys e o.0), o)
    | inr e ↦
        let newer : is_after (payload_of y) x ≡ true = ground (arith, a.0) in
        rw e (
          All-insert_newest (λ z. is_after (payload_of y) z ≡ true) x ys newer o.0,
          insert_newest-IsNewestFirst x ys a.1 o.1,
        )
  ]

  pub order_by-IsNewestFirst :
      (xs : List A) → Distinct same_row xs → IsNewestFirst (order_by_newest xs)
  order_by-IsNewestFirst [] d = tt
  order_by-IsNewestFirst (x ∷ xs) d =
      insert_newest-IsNewestFirst x (order_by_newest xs)
        (All-order_by (λ y. same_row x y ≡ false) xs d.0) (order_by-IsNewestFirst xs d.1)

  find-insert_newest :
      (k : Uuid) (x : A) (ys : List A)
      → Apart x ys
      → find (row_has_id k) (insert_newest x ys) ≡ find (row_has_id k) (x ∷ ys)
  find-insert_newest k x [] a = refl
  find-insert_newest k x (y ∷ ys) a = elim (Bool-cases (is_after (payload_of x) y)) [
    | inl e ↦ rw e refl
    | inr e ↦ ground (arith, find-insert_newest k x ys a.1, a.0)
  ]

  pub find-order_by :
      (k : Uuid) (xs : List A)
      → Distinct same_row xs
      → find (row_has_id k) (order_by_newest xs) ≡ find (row_has_id k) xs
  find-order_by k [] d = refl
  find-order_by k (x ∷ xs) d =
      let apart = All-order_by (λ y. same_row x y ≡ false) xs d.0 in
      ground (arith, find-insert_newest k x (order_by_newest xs) apart, find-order_by k xs d.1)

  pub find-select :
      (k : Uuid) (q : A → Bool) (xs : List A)
      → find (row_has_id k) (select q xs) ≡ find (λ o. row_has_id k o && q o) xs
  find-select k q [] = refl
  find-select k q (x ∷ xs) = ground (arith, find-select k q xs)
