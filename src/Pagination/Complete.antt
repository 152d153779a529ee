-- ===== src/Pagination/Complete.antt =====
-- A list that src/common/pagination/cursor/paginate-query-builder.ts gives in pages, read to its end.
use e_commerce_order_platfor.Common.{
  ℕ, zero, suc, ◌≡◌, refl, ap, sym, ◌∙◌, map, ◌++◌, ◌∷◌, ok, err, inl, inr, Bool-cases, Option,
  none, some, List, [], length, find, Distinct, Result,
}
use e_commerce_order_platfor.Database.{Uuid}
use e_commerce_order_platfor.Pagination.{
  Text, CursorPayload, Codec, HasCursor, fields_of, Page, order_by_newest,
  paginate_query_builder_by_cursor,
}
use e_commerce_order_platfor.Pagination.Plain.{paginate_lem}
use e_commerce_order_platfor.Pagination.Walk.{IsNewestFirst, follow, walk, walk_complete}
use e_commerce_order_platfor.Pagination.Sorted.{
  same_row, row_has_id, order_by-IsNewestFirst, find-order_by,
}

-- The rows of all pages that a service gives a client who follows the cursors; `n` bounds the pages.
abbrev pub all_pages : {A : Type 0} → (Option Text → Result (Page A)) → ℕ → Option Text → List A
all_pages fetch zero cursor = []
all_pages fetch (suc n) cursor = follow (fetch cursor) (all_pages fetch n)

-- A service that shows each entity of a page in another form.
abbrev pub map_page : {A B : Type 0} → (A → B) → Result (Page A) → Result (Page B)
map_page f (err e) = err e
map_page f (ok p) =
    ok (record { items = map f p.items; has_next = p.has_next; next_cursor = p.next_cursor })

map-append : {A B : Type 0} (f : A → B) (xs ys : List A) → map f (xs ++ ys) ≡ map f xs ++ map f ys
map-append f [] ys = refl
map-append f (x ∷ xs) ys = ap (λ zs. f x ∷ zs) (map-append f xs ys)

follow-map_page :
    {A B : Type 0} (f : A → B) (r : Result (Page A)) (rest : Option Text → List A)
    → follow (map_page f r) (λ c. map f (rest c)) ≡ map f (follow r rest)
follow-map_page f (err e) rest = refl
follow-map_page f (ok p) rest = elim (Bool-cases p.has_next) [
  | inl more ↦ rw more (sym (map-append f p.items (rest p.next_cursor)))
  | inr last ↦ rw last refl
]

pub all_pages-map_page :
    {A B : Type 0} (f : A → B) (fetch : Option Text → Result (Page A)) (n : ℕ)
    (cursor : Option Text)
    → all_pages (λ c. map_page f (fetch c)) n cursor ≡ map f (all_pages fetch n cursor)
all_pages-map_page f fetch zero cursor = refl
all_pages-map_page f fetch (suc n) cursor =
    (λ i. follow (map_page f (fetch cursor)) (λ c. all_pages-map_page f fetch n c i))
    ∙ follow-map_page f (fetch cursor) (all_pages fetch n)

module _ {A : Type 0} ⦃h : HasCursor A⦄ (codec : Codec) (rows : List A) (n : ℕ)
    (fetch : Option Text → Result (Page A))
    (is_service : (c : Option Text)
      → fetch c
        ≡ paginate_query_builder_by_cursor
            (λ x. 0)
            codec
            (order_by_newest rows)
            (record { limit = some (suc n); cursor = c })) where
  all_pages-walk :
      (k : ℕ) (cursor : Option Text)
      → all_pages fetch k cursor ≡ walk codec (suc n) (order_by_newest rows) k cursor
  all_pages-walk zero cursor = refl
  all_pages-walk (suc k) cursor = λ i.
      follow ((is_service cursor ∙ paginate_lem codec (suc n) (order_by_newest rows) cursor) i)
        (λ c. all_pages-walk k c i)

  pub all_pages_lem :
      ((c : CursorPayload) → codec.parse (codec.stringify c) ≡ some (fields_of c))
      → Distinct same_row rows
      → all_pages fetch (suc (length (order_by_newest rows))) none ≡ order_by_newest rows
  all_pages_lem law ids =
      all_pages-walk (suc (length (order_by_newest rows))) none
      ∙ walk_complete codec n (order_by_newest rows) law (order_by-IsNewestFirst rows ids)

  -- Newest first, no two rows alike, and just the rows of the table.
  pub all_pages_complete :
      (k : Uuid)
      → ((c : CursorPayload) → codec.parse (codec.stringify c) ≡ some (fields_of c))
      → Distinct same_row rows
      → let listed = all_pages fetch (suc (length (order_by_newest rows))) none in
        IsNewestFirst listed × (find (row_has_id k) listed ≡ find (row_has_id k) rows)
  all_pages_complete k law ids =
      rw (all_pages_lem law ids) (order_by-IsNewestFirst rows ids, find-order_by k rows ids)
