-- ===== src/Pagination/Plain.antt =====
-- Pages of src/common/pagination/cursor/paginate-query-builder.ts where each entity has one raw row: what a page
-- is then, without raw rows, and that the code gives it.
use e_commerce_order_platfor.Common.{
  ℕ, zero, suc, ◌≡◌, refl, ap, true, false, Option, none, some, List, [], ◌∷◌, map, length, take,
  last?, select, Result, ok, err, Result-cases, ltb, if◌then◌else◌, Bool-cases, inl, inr,
}
use e_commerce_order_platfor.Pagination.{
  Text, CursorPayload, Codec, Page, HasCursor, payload_of, is_after, encode_cursor, decode_cursor,
  raw_times, joined_page, exact_cursor, paginate_query_builder_by_cursor,
}

take-map : {A B : Type 0} (f : A → B) (n : ℕ) (xs : List A) → take n (map f xs) ≡ map f (take n xs)
take-map f zero xs = refl
take-map f (suc n) [] = refl
take-map f (suc n) (x ∷ xs) = ap (λ ys. f x ∷ ys) (take-map f n xs)

module _ {A : Type 0} ⦃h : HasCursor A⦄ where
  abbrev pub cursor_of : Codec → Option A → Option Text
  cursor_of codec none = none
  cursor_of codec (some o) = some (encode_cursor codec (payload_of o))

  -- The page of the rows that match, which come in the order of the query.
  abbrev pub page_of : Codec → ℕ → List A → Page A
  page_of codec limit matching =
      let entities = take (suc limit) matching in
      let has_next = ltb limit (length entities) in
      let page_items = if has_next then take limit entities else entities in
      record {
        items = page_items;
        has_next = has_next;
        next_cursor = cursor_of codec (last? page_items);
      }

  abbrev pub page_after : Codec → ℕ → List A → Result CursorPayload → Result (Page A)
  page_after codec limit rows (err e) = err e
  page_after codec limit rows (ok c) = ok (page_of codec limit (select (is_after c) rows))

  abbrev pub page_at : Codec → ℕ → List A → Option Text → Result (Page A)
  page_at codec limit rows none = ok (page_of codec limit rows)
  page_at codec limit rows (some cursor) = page_after codec limit rows (decode_cursor codec cursor)

  raw_times-map : (xs : List A) → raw_times (λ x. 0) xs ≡ map (λ x. (payload_of x).created_at) xs
  raw_times-map [] = refl
  raw_times-map (x ∷ xs) = ap (λ ts. (payload_of x).created_at ∷ ts) (raw_times-map xs)

  abbrev time_of : A → ℕ
  time_of x = (payload_of x).created_at

  exact_cursor_lem :
      (codec : Codec) (xs : List A)
      → exact_cursor codec (last? xs) (last? (map time_of xs)) ≡ cursor_of codec (last? xs)
  exact_cursor_lem codec [] = refl
  exact_cursor_lem codec (x ∷ []) = refl
  exact_cursor_lem codec (x ∷ y ∷ xs) = exact_cursor_lem codec (y ∷ xs)

  joined_page_lem :
      (codec : Codec) (limit : ℕ) (ms : List A)
      → joined_page (λ x. 0) codec limit ms ≡ page_of codec limit ms
  joined_page_lem codec limit ms =
      let entities = take (suc limit) ms in
      let raw = raw_times-map entities in
      elim (Bool-cases (ltb limit (length entities))) [
        | inl more ↦
            rw (raw, more, take-map time_of limit entities)
              (ap
                (λ (c : Option Text). record {
                  items = take limit entities;
                  has_next = true;
                  next_cursor = c;
                })
                (exact_cursor_lem codec (take limit entities)))
        | inr last ↦
            rw (raw, last)
              (ap
                (λ (c : Option Text). record {
                  items = entities;
                  has_next = false;
                  next_cursor = c;
                })
                (exact_cursor_lem codec entities))
      ]

  pub paginate_lem :
      (codec : Codec) (limit : ℕ) (rows : List A) (cursor : Option Text)
      → paginate_query_builder_by_cursor
          (λ x. 0)
          codec
          rows
          (record { limit = some limit; cursor = cursor })
        ≡ page_at codec limit rows cursor
  unfolding paginate_query_builder_by_cursor
  paginate_lem codec limit rows none = ap (λ (p : Page A). ok p) (joined_page_lem codec limit rows)
  paginate_lem codec limit rows (some cursor) = elim (Result-cases (decode_cursor codec cursor)) [
    | inl (c, e) ↦
        rw e (ap (λ (p : Page A). ok p) (joined_page_lem codec limit (select (is_after c) rows)))
    | inr (x, e) ↦ rw e refl
  ]
