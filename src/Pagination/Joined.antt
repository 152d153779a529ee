-- ===== src/Pagination/Joined.antt =====
-- Pages of src/common/pagination/cursor/paginate-query-builder.ts where the query joins a table with several rows
-- for an entity.
use e_commerce_order_platfor.Common.{
  ℕ, zero, suc, ◌≤◌, ◌<◌, ◌≡◌, refl, ap, ◌∙◌, true, Option, none, some, List, [], ◌∷◌, ◌++◌, length,
  take, last?, select, All, replicate, ok, ltb, arith,
}
use e_commerce_order_platfor.Pagination.{
  Text, CursorPayload, Codec, HasCursor, fields_of, Page, payload_of, is_after, raw_times,
  joined_page, paginate_query_builder_by_cursor, encode_cursor, exact_cursor,
}
use e_commerce_order_platfor.Pagination.Walk.{
  IsNewestFirst, length-take_long, take-take-suc, select_whole,
}

last-take-replicate :
    (n m t : ℕ) (ts : List ℕ) → n ≤ m → last? (take (suc n) (replicate (suc m) t ++ ts)) ≡ some t
last-take-replicate zero m t ts h = refl
last-take-replicate (suc n) zero t ts h = absurd (omega arith)
last-take-replicate (suc n) (suc m) t ts h = last-take-replicate n m t ts (omega arith)

module _ {A : Type 0} ⦃h : HasCursor A⦄ where
  -- The cursor that stands before all rows: the time of the newest row, and an id above its own.
  before_all :
      (i : ℕ) (x : A) (ys : List A)
      → (payload_of x).id < i
      → All (λ y. is_after (payload_of x) y ≡ true) ys
      → All (λ y. is_after (record { id = i; created_at = (payload_of x).created_at }) y ≡ true) ys
  before_all i x [] lt older = tt
  before_all i x (y ∷ ys) lt older = (ground (arith, older.0), before_all i x ys lt older.1)

  -- Where the newest row has as many raw rows as a page has entities, and the last row of the first page has a
  -- greater id: the first page says that there is a next one, and its cursor leads to the first page again.
  pub first_page_repeats :
      (more : A → ℕ) (codec : Codec) (n : ℕ) (x : A) (xs : List A) (z : A)
      → ((c : CursorPayload) → codec.parse (codec.stringify c) ≡ some (fields_of c))
      → IsNewestFirst (x ∷ xs)
      → suc n < length (x ∷ xs)
      → n ≤ more x
      → last? (take (suc n) (x ∷ xs)) ≡ some z
      → (payload_of x).id < (payload_of z).id
      → let fetch = λ (c : Option Text).
        paginate_query_builder_by_cursor more codec
          (x ∷ xs)
          (record { limit = some (suc n); cursor = c }) in
        (p : Page A) × (fetch none ≡ ok p)
        × (p.items ≡ take (suc n) (x ∷ xs))
        × (p.has_next ≡ true)
        × (fetch p.next_cursor ≡ ok p)
  unfolding paginate_query_builder_by_cursor
  first_page_repeats more codec n x xs z law newest long copies last lt =
      let c : CursorPayload = record {
        id = (payload_of z).id;
        created_at = (payload_of x).created_at;
      } in
      let (full, left) = length-take_long (suc n) (x ∷ xs) long in
      let is_more : ltb (suc n) (length (take (suc (suc n)) (x ∷ xs))) ≡ true = ground arith in
      let all : select (is_after c) (x ∷ xs) ≡ x ∷ xs =
        select_whole c (x ∷ xs) (ground arith, before_all (payload_of z).id x xs lt newest.0) in
      let time =
        last-take-replicate n (more x) (payload_of x).created_at (raw_times more (take (suc n) xs))
          copies in
      let p : Page A = record {
        items = take (suc n) (x ∷ xs);
        has_next = true;
        next_cursor = some (encode_cursor codec c);
      } in
      let entities = take (suc (suc n)) (x ∷ xs) in
      let shown = take-take-suc (suc n) (x ∷ xs) in
      let last_item : last? (take (suc n) entities) ≡ some z =
        ap (λ (ys : List A). last? ys) shown ∙ last in
      let cursor : exact_cursor codec (last? (take (suc n) entities))
            (last? (take (suc n) (raw_times more entities)))
          ≡ some (encode_cursor codec c) =
        ap (λ (o : Option A). exact_cursor codec o (last? (take (suc n) (raw_times more entities))))
          last_item
        ∙ ap (λ (t : Option ℕ). exact_cursor codec (some z) t) time in
      let first : joined_page more codec (suc n) (x ∷ xs) ≡ p =
        rw is_more (λ i. record { items = shown i; has_next = true; next_cursor = cursor i }) in
      let again = ap (λ (q : Page A). ok q) first in (p, again, refl, refl, rw (law c, all) again)
