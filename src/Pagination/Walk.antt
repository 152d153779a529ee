-- ===== src/Pagination/Walk.antt =====
-- A client that follows the cursors of src/common/pagination/cursor/paginate-query-builder.ts.
use e_commerce_order_platfor.Common.{
  ⊤, ℕ, zero, suc, ◌+◌, ◌≤◌, ◌<◌, ◌≡◌, refl, ap, sym, subst, ◌∙◌, true, false, Option, none, some,
  List, [], ◌∷◌, ◌++◌, append_assoc, length, take, drop, last?, select, All, Result, ok, err, inl,
  inr, arith, Bool-cases, ltb, if◌then◌else◌,
}
use e_commerce_order_platfor.Pagination.{
  Text, CursorPayload, Codec, HasCursor, fields_of, encode_cursor, Page, payload_of, is_after,
}
use e_commerce_order_platfor.Pagination.Plain.{cursor_of, page_of, page_at}

module _ {A : Type 0} where
  abbrev pub follow : Result (Page A) → (Option Text → List A) → List A
  follow (err e) rest = []
  follow (ok p) rest = if p.has_next then p.items ++ rest p.next_cursor else p.items

  pub All-middle : (P : A → Type 0) (xs : List A) (y : A) (ys : List A) → All P (xs ++ y ∷ ys) → P y
  All-middle P [] y ys h = h.0
  All-middle P (x ∷ xs) y ys h = All-middle P xs y ys h.1

  take-drop : (n : ℕ) (xs : List A) → take n xs ++ drop n xs ≡ xs
  take-drop zero xs = refl
  take-drop (suc n) [] = refl
  take-drop (suc n) (x ∷ xs) = ap (λ ys. x ∷ ys) (take-drop n xs)

  pub take_short : (n : ℕ) (xs : List A) → length xs ≤ n → take n xs ≡ xs
  take_short zero [] h = refl
  take_short zero (x ∷ xs) h = absurd (omega arith)
  take_short (suc n) [] h = refl
  take_short (suc n) (x ∷ xs) h = ap (λ ys. x ∷ ys) (take_short n xs (omega arith))

  pub take-take-suc : (n : ℕ) (xs : List A) → take n (take (suc n) xs) ≡ take n xs
  take-take-suc zero xs = refl
  take-take-suc (suc n) [] = refl
  take-take-suc (suc n) (x ∷ xs) = ap (λ ys. x ∷ ys) (take-take-suc n xs)

  length-take_le : (n : ℕ) (xs : List A) → length (take n xs) ≤ n
  length-take_le zero xs = omega arith
  length-take_le (suc n) [] = omega arith
  length-take_le (suc n) (x ∷ xs) = omega (arith, length-take_le n xs)

  -- A list that is longer than a page: the page is full, one row more was read, and fewer rows are left.
  pub length-take_long :
      (n : ℕ) (xs : List A)
      → n < length xs
      → (length (take (suc n) xs) ≡ suc n) × (length (drop n xs) + n ≡ length xs)
  length-take_long n [] h = absurd (omega arith)
  length-take_long zero (x ∷ xs) h = (omega arith, omega arith)
  length-take_long (suc n) (x ∷ xs) h =
      let (full, left) = length-take_long n xs (omega arith) in (omega arith, omega arith)

  -- The last row of a full page, with what is before it.
  pub last-take :
      (n : ℕ) (xs : List A)
      → suc n < length xs
      → (init : List A) × (x : A) × (take (suc n) xs ≡ init ++ x ∷ [])
        × (last? (take (suc n) xs) ≡ some x)
  last-take n [] h = absurd (omega arith)
  last-take zero (x ∷ xs) h = ([], x, refl, refl)
  last-take (suc n) (x ∷ []) h = absurd (omega arith)
  last-take (suc n) (x ∷ y ∷ xs) h =
      let (init, z, shape, last) = last-take n (y ∷ xs) (omega arith) in
      (x ∷ init, z, ap (λ ys. x ∷ ys) shape, last)

module _ {A : Type 0} ⦃h : HasCursor A⦄ where
  -- Newest first, no two rows alike.
  abbrev pub IsNewestFirst : List A → Type 0
  IsNewestFirst [] = ⊤
  IsNewestFirst (x ∷ xs) = All (λ y. is_after (payload_of x) y ≡ true) xs × IsNewestFirst xs

  -- The rows of all pages, from a cursor on; `n` bounds the number of pages.
  abbrev pub walk : Codec → ℕ → List A → ℕ → Option Text → List A
  walk codec limit rows zero cursor = []
  walk codec limit rows (suc n) cursor =
      follow (page_at codec limit rows cursor) (walk codec limit rows n)

  pub select_whole :
      (c : CursorPayload) (xs : List A)
      → All (λ y. is_after c y ≡ true) xs
      → select (is_after c) xs ≡ xs
  select_whole c [] h = refl
  select_whole c (x ∷ xs) h = rw (h.0, select_whole c xs h.1) refl

  -- The rows after a row are those that the cursor of this row selects.
  select_after :
      (xs : List A) (y : A) (ys : List A)
      → IsNewestFirst (xs ++ y ∷ ys)
      → select (is_after (payload_of y)) (xs ++ y ∷ ys) ≡ ys
  select_after [] y ys h =
      let self : is_after (payload_of y) y ≡ false = ground arith in
      rw (self, select_whole (payload_of y) ys h.0) refl
  select_after (x ∷ xs) y ys h =
      let older = All-middle (λ z. is_after (payload_of x) z ≡ true) xs y ys h.0 in
      let newer : is_after (payload_of y) x ≡ false = ground arith in
      rw newer (select_after xs y ys h.1)

  -- A page of rows that are too many for it.
  page_long :
      (codec : Codec) (n : ℕ) (ms : List A)
      → suc n < length ms
      → page_of codec (suc n) ms ≡ record {
        items = take (suc n) ms;
        has_next = true;
        next_cursor = cursor_of codec (last? (take (suc n) ms));
      }
  page_long codec n ms h =
      let (full, left) = length-take_long (suc n) ms h in
      let more : ltb (suc n) (length (take (suc (suc n)) ms)) ≡ true = ground arith in
      rw (more, take-take-suc (suc n) ms) refl

  page_short :
      (codec : Codec) (n : ℕ) (ms : List A)
      → length ms ≤ suc n
      → page_of codec (suc n) ms
        ≡ record { items = ms; has_next = false; next_cursor = cursor_of codec (last? ms) }
  page_short codec n ms h =
      let whole = take_short (suc (suc n)) ms (omega arith) in
      let less : ltb (suc n) (length ms) ≡ false = ground arith in rw (whole, less) refl

  -- The cursor of each row leads to the page of the rows after it.
  abbrev pub Resumes : Codec → ℕ → List A → Type 0
  Resumes codec n rows =
      (before : List A) (x : A) (rest : List A)
      → rows ≡ before ++ x ∷ rest
      → page_at codec (suc n) rows (some (encode_cursor codec (payload_of x)))
        ≡ ok (page_of codec (suc n) rest)

  -- From a page on, where `done` are the rows of the pages before it.
  walk_from :
      (codec : Codec) (n fuel : ℕ) (rows done ms : List A) (cursor : Option Text)
      → Resumes codec n rows
      → rows ≡ done ++ ms
      → page_at codec (suc n) rows cursor ≡ ok (page_of codec (suc n) ms)
      → length ms < fuel
      → walk codec (suc n) rows fuel cursor ≡ ms
  walk_from codec n zero rows done ms cursor resumes split here enough = absurd (omega arith)
  walk_from codec n (suc fuel) rows done ms cursor resumes split here enough =
      elim (Bool-cases (ltb (suc n) (length ms))) [
        | inr short ↦
            rw (here ∙ ap (λ (p : Page A). ok p) (page_short codec n ms (ground arith))) refl
        | inl long ↦
            let h : suc n < length ms = ground arith in
            let (init, x, shape, last) = last-take n ms h in
            let rest = drop (suc n) ms in
            let (full, left) = length-take_long (suc n) ms h in
            let ms_shape : ms ≡ (init ++ x ∷ []) ++ rest =
              sym (take-drop (suc n) ms) ∙ ap (λ ys. ys ++ rest) shape in
            let whole : rows ≡ (done ++ init) ++ x ∷ rest =
              split
              ∙ ap (λ ys. done ++ ys) (ms_shape ∙ append_assoc init (x ∷ []) rest)
              ∙ sym (append_assoc done init (x ∷ rest)) in
            let next = resumes (done ++ init) x rest whole in
            let rest_rows =
              walk_from codec n fuel rows (done ++ take (suc n) ms) rest
                (some (encode_cursor codec (payload_of x))) resumes
                (split
                  ∙ ap (λ ys. done ++ ys) (sym (take-drop (suc n) ms))
                  ∙ sym (append_assoc done (take (suc n) ms) rest))
                next (omega arith) in
            let shown = here ∙ ap (λ (p : Page A). ok p) (page_long codec n ms h) in
            rw (shown, last, rest_rows) (take-drop (suc n) ms)
      ]

  pub walk_all :
      (codec : Codec) (n : ℕ) (rows : List A)
      → Resumes codec n rows
      → walk codec (suc n) rows (suc (length rows)) none ≡ rows
  walk_all codec n rows resumes =
      walk_from codec n (suc (length rows)) rows [] rows none resumes refl refl (omega arith)

  -- Where a cursor reads back as what it was written from, the limit is at least one and the rows come
  -- newest first with no two alike: a client that starts without a cursor and follows the cursors as long as
  -- there is a next page gets every row once and in order, after at most one page more than there are rows.
  pub walk_complete :
      (codec : Codec) (n : ℕ) (rows : List A)
      → ((c : CursorPayload) → codec.parse (codec.stringify c) ≡ some (fields_of c))
      → IsNewestFirst rows
      → walk codec (suc n) rows (suc (length rows)) none ≡ rows
  walk_complete codec n rows law newest = walk_all codec n rows (λ before x rest split.
      let selected : select (is_after (payload_of x)) rows ≡ rest =
        subst (λ r. select (is_after (payload_of x)) r ≡ rest) (sym split)
          (select_after before x rest (subst (λ r. IsNewestFirst r) split newest)) in
      rw (law (payload_of x), selected) refl)
