-- ===== src/Products/Search.antt =====
-- What a client who follows the cursors of src/products/products.service.ts is shown.
use e_commerce_order_platfor.Common.{
  ℕ, suc, ◌≤◌, ◌<◌, ◌≡◌, ap, ◌∙◌, String, Bool, true, Option, none, some, List, ◌∷◌, length, map,
  take, last?, Distinct, Result, ok, arith, subst,
}
use e_commerce_order_platfor.Database.{Product, Database}
use e_commerce_order_platfor.Pagination.{
  Text, CursorPayload, Codec, Page, fields_of, order_by_newest, paginate_query_builder_by_cursor,
}
use e_commerce_order_platfor.Pagination.Walk.{IsNewestFirst}
use e_commerce_order_platfor.Pagination.Sorted.{same_row, Distinct-select, order_by-IsNewestFirst}
use e_commerce_order_platfor.Pagination.Complete.{map_page}
use e_commerce_order_platfor.Pagination.Joined.{first_page_repeats}
use e_commerce_order_platfor.Products.{
  FindProductsQueryDto, ProductView, product_cursor, joins_items, items_of, product_view, matches,
  matching_products, more_rows, find_products,
}

abbrev pub query_at : ℕ → Option String → Option (List String) → Option Text → FindProductsQueryDto
query_at limit q fields c = record { limit = some limit; cursor = c; q = q; fields = fields }

-- Where the items are asked for: as soon as the newest product that matches has as many items as a page has
-- products, and the last product of the first page has a greater id, the first page says that there is a next
-- one, and its cursor leads to the same page again, so a client who follows the cursors never gets past it.
pub joined_products_repeat :
    (codec : Codec) (ilike : String → String → Bool) (q : Option String)
    (fields : Option (List String)) (d : Database) (n : ℕ) (x : Product) (xs : List Product)
    (z : Product)
    → ((c : CursorPayload) → codec.parse (codec.stringify c) ≡ some (fields_of c))
    → Distinct same_row d.products
    → joins_items fields ≡ true
    → order_by_newest (matching_products ilike q d) ≡ x ∷ xs
    → suc n < length (x ∷ xs)
    → suc n ≤ length (items_of d x)
    → last? (take (suc n) (x ∷ xs)) ≡ some z
    → x.id < z.id
    → let fetch = λ (c : Option Text). find_products codec ilike (query_at (suc n) q fields c) d in
      (p : Page ProductView) × (fetch none ≡ ok p)
      × (p.items ≡ map (product_view fields d) (take (suc n) (x ∷ xs)))
      × (p.has_next ≡ true)
      × (fetch p.next_cursor ≡ ok p)
unfolding find_products
joined_products_repeat codec ilike q fields d n x xs z law ids joins rows long many last lt =
    let newest =
      subst (λ ps. IsNewestFirst ps) rows
        (order_by-IsNewestFirst (matching_products ilike q d)
          (Distinct-select (λ p. matches ilike q p) d.products ids)) in
    let copies : n ≤ more_rows fields d x = rw joins (omega arith) in
    let (p, first, shown, more, again) =
      first_page_repeats (more_rows fields d) codec n x xs z law newest long copies last lt in
    let seen =
      λ (c : Option Text)
          (e : paginate_query_builder_by_cursor (more_rows fields d) codec (x ∷ xs)
              (record { limit = some (suc n); cursor = c })
            ≡ ok p).
        ap
          (λ (ps : List Product). map_page (product_view fields d) (
            paginate_query_builder_by_cursor (more_rows fields d) codec ps
              (record { limit = some (suc n); cursor = c })))
          rows
        ∙ ap (λ (r : Result (Page Product)). map_page (product_view fields d) r) e in
    (
      record {
        items = map (product_view fields d) p.items;
        has_next = p.has_next;
        next_cursor = p.next_cursor;
      },
      seen none first,
      ap (λ (ps : List Product). map (product_view fields d) ps) shown,
      more,
      seen p.next_cursor again,
    )
