-- ===== src/Pagination.antt =====
-- Pages by cursor, `paginateQueryBuilderByCursor` of src/common/pagination/cursor/paginate-query-builder.ts,
-- and the list of orders that uses it, `findAll` of src/orders/orders.service.ts. A cursor is
-- the base64 of JSON (src/common/pagination/cursor/cursor-codec.ts), for which node's functions are
-- parameters.
pub mod Plain
pub mod Walk
pub mod Sorted
pub mod Complete
pub mod Joined
pub mod Listing
pub mod Slices
pub mod Offsets
mod Tests
use e_commerce_order_platfor.Common.{
  ⊤, ℕ, zero, suc, ◌+◌, ◌*◌, ◌/◌, replicate, String, Bool, true, false, not, ◌&&◌, ◌||◌, Option,
  none, some, List, [], ◌∷◌, ◌++◌, length, take, last?, select, Result, ok, err, text, bad_request,
  or_default, ltb, leb, ◌==◌, if◌then◌else◌,
}
use e_commerce_order_platfor.Database.{Uuid, Order}
use e_commerce_order_platfor.Runtime.{App}
use e_commerce_order_platfor.Auth.{AuthUser, is_staff}
use e_commerce_order_platfor.Orders.Manage.{orders_of, may_read}

-- `CursorPayload`
pub record CursorPayload : Type 0 where
  pub id : Uuid
  pub created_at : ℕ

-- A string, as the codes of its characters.
abbrev pub Text : Type 0
Text = List ℕ

-- What `JSON.parse` finds of a cursor: its fields, each where it is a string.
pub record Fields : Type 0 where
  pub id : Option Uuid
  pub created_at : Option ℕ

-- node's `JSON` and `Buffer`: the base64 of a payload, and an object that is read back.
pub record Codec : Type 0 where
  pub stringify : CursorPayload → Text
  pub parse : Text → Option Fields

abbrev pub fields_of : CursorPayload → Fields
fields_of c = record { id = some c.id; created_at = some c.created_at }

abbrev pub encode_cursor : Codec → CursorPayload → Text
encode_cursor codec c = codec.stringify c

abbrev checked_fields : Option Uuid → Option ℕ → Result CursorPayload
checked_fields (some i) (some t) = ok (record { id = i; created_at = t })
checked_fields (some i) none = err (bad_request (text "Invalid cursor"))
checked_fields none t = err (bad_request (text "Invalid cursor"))

abbrev checked_payload : Option Fields → Result CursorPayload
checked_payload none = err (bad_request (text "Invalid cursor"))
checked_payload (some f) = checked_fields f.id f.created_at

abbrev pub decode_cursor : Codec → Text → Result CursorPayload
decode_cursor codec cursor = checked_payload (codec.parse cursor)

-- `CursorPaginationQueryDto`
pub record Query : Type 0 where
  pub limit : Option ℕ
  pub cursor : Option Text

pub record Page (A : Type 0) : Type 0 where
  pub items : List A
  pub has_next : Bool
  pub next_cursor : Option Text

-- `T extends { id: string; createdAt: Date }`: the entities that a page may hold.
pub record HasCursor (A : Type 0) : Type 0 where
  pub cursor_key : A → CursorPayload

instance abbrev pub order_cursor : HasCursor Order
order_cursor = record { cursor_key = λ o. record { id = o.id; created_at = o.created_at } }

-- A time in microseconds as a `Date` of JavaScript, which has milliseconds.
abbrev pub to_js_date : ℕ → ℕ
to_js_date t = t / 1000 * 1000

module _ {A : Type 0} ⦃h : HasCursor A⦄ where
  abbrev pub payload_of : A → CursorPayload
  payload_of o = h.cursor_key o

  -- `created_at < :cursorCreatedAt OR (created_at = :cursorCreatedAt AND id < :cursorId)`
  abbrev pub is_after : CursorPayload → A → Bool
  is_after c o =
      let k = payload_of o in
      ltb k.created_at c.created_at || (k.created_at == c.created_at && ltb k.id c.id)

  -- ORDER BY created_at DESC, id DESC
  abbrev pub insert_newest : A → List A → List A
  insert_newest x [] = x ∷ []
  insert_newest x (y ∷ ys) =
      let later = y ∷ insert_newest x ys in if is_after (payload_of x) y then x ∷ y ∷ ys else later

  abbrev pub order_by_newest : List A → List A
  order_by_newest [] = []
  order_by_newest (x ∷ xs) = insert_newest x (order_by_newest xs)

  -- `lastItem.createdAt` stands in where there is no raw row.
  abbrev pub exact_cursor : Codec → Option A → Option ℕ → Option Text
  exact_cursor codec none t = none
  exact_cursor codec (some o) none = some (
      encode_cursor codec
        (record { id = (payload_of o).id; created_at = to_js_date (payload_of o).created_at }))
  exact_cursor codec (some o) (some t) =
      some (encode_cursor codec (record { id = (payload_of o).id; created_at = t }))

  -- The column `__cursor_created_at` of the raw rows: an entity has one row, and `more` rows besides where the
  -- query joins another table.
  abbrev pub raw_times : (more : A → ℕ) → List A → List ℕ
  raw_times more [] = []
  raw_times more (x ∷ xs) = replicate (suc (more x)) (payload_of x).created_at ++ raw_times more xs

  -- The page of the rows that match, which come in the order of the query.
  abbrev pub joined_page : (more : A → ℕ) → Codec → ℕ → List A → Page A
  joined_page more codec limit matching =
      let entities = take (suc limit) matching in
      let raw = raw_times more entities in
      let has_next = ltb limit (length entities) in
      let page_items = if has_next then take limit entities else entities in
      let page_raw = if has_next then take limit raw else raw in
      record {
        items = page_items;
        has_next = has_next;
        next_cursor = exact_cursor codec (last? page_items) (last? page_raw);
      }

  abbrev joined_page_after :
      (more : A → ℕ) → Codec → ℕ → List A → Result CursorPayload → Result (Page A)
  joined_page_after more codec limit rows (err e) = err e
  joined_page_after more codec limit rows (ok c) =
      ok (joined_page more codec limit (select (is_after c) rows))

  abbrev joined_page_at : (more : A → ℕ) → Codec → ℕ → List A → Option Text → Result (Page A)
  joined_page_at more codec limit rows none = ok (joined_page more codec limit rows)
  joined_page_at more codec limit rows (some cursor) =
      joined_page_after more codec limit rows (decode_cursor codec cursor)

  -- An empty cursor is `none`.
  unfoldable pub paginate_query_builder_by_cursor :
      (more : A → ℕ) → Codec → List A → Query → Result (Page A)
  paginate_query_builder_by_cursor more codec rows query =
      joined_page_at more codec (or_default query.limit 10) rows query.cursor

-- `findAll`; the join finds one user for each order.
unfoldable pub find_all : Codec → AuthUser → Query → App → Result (Page Order)
unfolding paginate_query_builder_by_cursor
find_all codec u query w =
    paginate_query_builder_by_cursor (λ o. 0) codec
      (order_by_newest (select (may_read u) (orders_of w))) query
