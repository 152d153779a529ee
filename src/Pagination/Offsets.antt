-- ===== src/Pagination/Offsets.antt =====
-- The pages of src/common/pagination/offset/paginate-offset.ts, put together.
use Prim.Native.Nat.mul
use e_commerce_order_platfor.Common.{
  ℕ, zero, suc, ◌+◌, ◌-◌, ◌*◌, ◌≤◌, ◌≡◌, refl, ap, sym, ◌∙◌, List, [], ◌∷◌, ◌++◌, length, take,
  drop, arith,
}
use e_commerce_order_platfor.Pagination.Slices.{paginate_offset}

zero_plus : (n : ℕ) → 0 + n ≡ n
zero_plus n = omega arith

suc_plus : (m n : ℕ) → suc m + n ≡ suc (m + n)
suc_plus m n = omega arith

zero_pages : (limit : ℕ) → 0 * limit ≡ 0
zero_pages limit = omega arith

swapped : (a b : ℕ) → a + b ≡ b + a
swapped a b = omega arith

one_page_more : (n limit : ℕ) → suc n * limit ≡ n * limit + limit
one_page_more n limit = mul.suc n limit ∙ swapped limit (n * limit)

before_page : (n : ℕ) → suc n - 1 ≡ n
before_page n = omega arith

rest_of_page : (a limit : ℕ) → a + limit - a ≡ limit
rest_of_page a limit = omega arith

module _ {A : Type 0} where
  take_nil : (n : ℕ) → ◌≡◌ {A = List A} (take n []) []
  take_nil zero = refl
  take_nil (suc n) = refl

  take-plus : (m n : ℕ) (xs : List A) → take (m + n) xs ≡ take m xs ++ take n (drop m xs)
  take-plus zero n xs = ap (λ k. take k xs) (zero_plus n)
  take-plus (suc m) n [] = take_nil (suc m + n) ∙ sym (take_nil n)
  take-plus (suc m) n (x ∷ xs) =
      ap (λ k. take k (x ∷ xs)) (suc_plus m n) ∙ ap (λ ys. x ∷ ys) (take-plus m n xs)

  take_all : (n : ℕ) (xs : List A) → length xs ≤ n → take n xs ≡ xs
  take_all zero [] h = refl
  take_all zero (x ∷ xs) h = absurd (omega arith)
  take_all (suc n) [] h = refl
  take_all (suc n) (x ∷ xs) h = ap (λ ys. x ∷ ys) (take_all n xs (omega arith))

  drop_all : (n : ℕ) (xs : List A) → length xs ≤ n → drop n xs ≡ []
  drop_all zero [] h = refl
  drop_all zero (x ∷ xs) h = absurd (omega arith)
  drop_all (suc n) [] h = refl
  drop_all (suc n) (x ∷ xs) h = drop_all n xs (omega arith)

  -- The items of the pages 1 to `n`.
  abbrev pub first_pages : ℕ → ℕ → List A → List A
  first_pages limit zero target = []
  first_pages limit (suc n) target =
      first_pages limit n target
      ++ (paginate_offset (record { limit = limit; page = suc n }) target).items

  first_pages-take :
      (limit n : ℕ) (target : List A) → first_pages limit n target ≡ take (n * limit) target
  unfolding paginate_offset
  first_pages-take limit zero target = sym (ap (λ k. take k target) (zero_pages limit))
  first_pages-take limit (suc n) target =
      let a = n * limit in
      rw (before_page n, rest_of_page a limit, first_pages-take limit n target)
        (sym (ap (λ k. take k target) (one_page_more n limit) ∙ take-plus a limit target))

  -- The items of the pages 1 to `n` are, in order, the first `n` times `limit` of the list; with enough pages
  -- they are the whole list; and each page tells the length of the list and where it starts.
  offset_pages_cover :
      (limit n : ℕ) (target : List A)
      → length target ≤ n * limit
      → (first_pages limit n target ≡ target)
        × ((paginate_offset (record { limit = limit; page = suc n }) target).items ≡ [])
        × ((paginate_offset (record { limit = limit; page = suc n }) target).total ≡ length target)
  unfolding paginate_offset
  offset_pages_cover limit n target enough = (
    first_pages-take limit n target ∙ take_all (n * limit) target enough,
    rw (before_page n, rest_of_page (n * limit) limit, drop_all (n * limit) target enough)
        (take_nil limit),
    refl,
  )
