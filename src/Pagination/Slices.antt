-- ===== src/Pagination/Slices.antt =====
-- Pages of a list in memory: by offset (src/common/pagination/offset/paginate-offset.ts) and by cursor
-- (src/common/pagination/cursor/paginate-by-cursor.ts). The rows are orders, as one type with an id and a
-- time of creation.
use e_commerce_order_platfor.Common.{
  ℕ, suc, ◌+◌, ◌-◌, ◌*◌, Bool, true, false, ◌&&◌, Option, none, some, List, [], ◌∷◌, length, take,
  drop, last?, Result, ok, err, plain, text, ltb, ◌==◌, if◌then◌else◌,
}
use e_commerce_order_platfor.Database.{Order}
use e_commerce_order_platfor.Pagination.{
  order_cursor, Text, CursorPayload, Codec, Fields, payload_of,
}

module _ {A : Type 0} where
  -- `xs.slice(from, to)`, where `from` and `to` are not negative.
  abbrev pub slice : ℕ → ℕ → List A → List A
  slice from to xs = take (to - from) (drop from xs)

-- `OffsetPaginationQueryDto`; a page has a number from 1 on.
pub record OffsetQuery : Type 0 where
  pub limit : ℕ
  pub page : ℕ

pub record OffsetPage (A : Type 0) : Type 0 where
  pub items : List A
  pub limit : ℕ
  pub offset : ℕ
  pub total : ℕ

unfoldable pub paginate_offset : {A : Type 0} → OffsetQuery → List A → OffsetPage A
paginate_offset query target =
    let offset = (query.page - 1) * query.limit in
    record {
      items = slice offset (offset + query.limit) target;
      limit = query.limit;
      offset = offset;
      total = length target;
    }

-- `ICursorPage`
pub record CursorPage : Type 0 where
  pub items : List Order
  pub has_next : Bool
  pub next_cursor : Option Text

-- `target.findIndex(…)` plus one, where the row is found.
abbrev pub index_after : CursorPayload → List Order → Option ℕ
index_after c [] = none
index_after c (x ∷ xs) =
    let rest = index_after c xs in
    if x.id == c.id && x.created_at == c.created_at then some 1 else next rest
  where
    next : Option ℕ → Option ℕ
    next none = none
    next (some n) = some (suc n)

abbrev payload_in : Option Fields → Option CursorPayload
payload_in none = none
payload_in (some f) = both f.id f.created_at
  where
    both : Option ℕ → Option ℕ → Option CursorPayload
    both none t = none
    both (some i) none = none
    both (some i) (some t) = some (record { id = i; created_at = t })

abbrev index_of_payload : Option CursorPayload → List Order → Result ℕ
index_of_payload none target = err (plain (text "Invalid cursor payload"))
index_of_payload (some c) target = found (index_after c target)
  where
    found : Option ℕ → Result ℕ
    found none = err (plain (text "Cursor not found in target"))
    found (some n) = ok n

-- `startIndex`; an empty cursor is none.
abbrev pub start_index : Codec → Option Text → List Order → Result ℕ
start_index codec none target = ok 0
start_index codec (some cursor) target = index_of_payload (payload_in (codec.parse cursor)) target

abbrev pub next_cursor_of : Codec → Bool → Option Order → Option Text
next_cursor_of codec false o = none
next_cursor_of codec true none = none
next_cursor_of codec true (some o) = some (codec.stringify (payload_of o))

abbrev pub page_from : Codec → ℕ → List Order → Result ℕ → Result CursorPage
page_from codec limit target (err e) = err e
page_from codec limit target (ok start) =
    let window = slice start (start + limit + 1) target in
    let has_next = ltb limit (length window) in
    let page_items = if has_next then slice 0 limit window else window in
    ok (record {
      items = page_items;
      has_next = has_next;
      next_cursor = next_cursor_of codec has_next (last? page_items);
    })

unfoldable pub paginate_by_cursor : Codec → ℕ → Option Text → List Order → Result CursorPage
paginate_by_cursor codec limit cursor target =
    page_from codec limit target (start_index codec cursor target)
