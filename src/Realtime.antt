-- ===== src/Realtime.antt =====
-- The WebSocket gateway, `OrdersGateway` of src/realtime/orders.gateway.ts: each client with its own
-- data, over the orders of the application. The check of a token is a parameter, and text is a list of
-- its characters' codes.
pub mod RateLimit
pub mod Rooms
mod Tests
use Prim.Native.Char.{code}
use e_commerce_order_platfor.Common.{
  ⊤, ℕ, ◌+◌, ◌-◌, String, Bool, true, false, not, ◌&&◌, ◌||◌, Option, none, some, List, [], ◌∷◌,
  ◌++◌, map, length, mem, drop, select, delete_where, Action, pure, throw, throw_if, gets, modify,
  or_throw, try_catch, ◌>>=◌, ◌>>◌, Result, ok, err, Message, text, Exception, plain, bad_request,
  conflict, forbidden, not_found, unauthorized, gateway_timeout, service_unavailable, timeout_error,
  coded, ltb, leb, ◌==◌, or_default, if◌then◌else◌,
}
use e_commerce_order_platfor.Database.{Uuid, Order}
use e_commerce_order_platfor.Runtime.{App, OrderStatusChangedEvent}
use e_commerce_order_platfor.Auth.{AuthUser}
use e_commerce_order_platfor.PaymentService.Grpc.{codes, lower, starts_with}
use e_commerce_order_platfor.Orders.Manage.{can_subscribe_to_order}

-- A client: `client.data`, its rooms by their orders, and whether it is connected.
pub record Client : Type 0 where
  pub user : Option AuthUser
  pub subscribe_calls : Option (List ℕ)
  pub rooms : List Uuid
  pub connected : Bool

-- What of the handshake is a string: `auth.token`, the header `authorization`, `query.token`.
pub record Handshake : Type 0 where
  pub auth_token : Option (List ℕ)
  pub authorization : Option (List ℕ)
  pub query_token : Option (List ℕ)

abbrev pub non_empty : Option (List ℕ) → Option (List ℕ)
non_empty (some (c ∷ cs)) = some (c ∷ cs)
non_empty (some []) = none
non_empty none = none

abbrev is_blank : ℕ → Bool
is_blank c = c == 32 || (leb 9 c && leb c 13)

abbrev pub trim_start : List ℕ → List ℕ
trim_start [] = []
trim_start (c ∷ cs) = let rest = trim_start cs in if is_blank c then rest else c ∷ cs

-- Blanks at the end go.
abbrev cons_unless_end : ℕ → List ℕ → List ℕ
cons_unless_end c [] = if is_blank c then [] else c ∷ []
cons_unless_end c (d ∷ ds) = c ∷ d ∷ ds

abbrev pub trim_end : List ℕ → List ℕ
trim_end [] = []
trim_end (c ∷ cs) = cons_unless_end c (trim_end cs)

-- `header.slice('bearer '.length).trim()`, where the header starts with 'bearer ' in any case.
abbrev pub bearer_of : Option (List ℕ) → Option (List ℕ)
bearer_of none = none
bearer_of (some h) =
    if starts_with (codes "bearer ") (map lower h)
    then some (trim_end (trim_start (drop 7 h)))
    else none

abbrev first_of : Option (List ℕ) → Option (List ℕ) → Option (List ℕ)
first_of (some t) o = some t
first_of none o = o

unfoldable pub get_token_from_handshake : Handshake → Option (List ℕ)
get_token_from_handshake h =
    first_of (non_empty h.auth_token)
      (first_of (bearer_of h.authorization) (non_empty h.query_token))

abbrev pub disconnect : Client → Client
disconnect c = record c { connected = false }

abbrev pub with_payload : Option AuthUser → Client → Client
with_payload none c = disconnect c
with_payload (some u) c = record c { user = some u; subscribe_calls = some [] }

-- `handleConnection`; `if (!token)` also refuses an empty token.
unfoldable pub handle_connection : (List ℕ → Option AuthUser) → Handshake → Client → Client
handle_connection verify h c = elim (non_empty (get_token_from_handshake h)) [
  | none ↦ disconnect c
  | some token ↦ with_payload (verify token) c
]

abbrev pub emptied : Option (List ℕ) → Option (List ℕ)
emptied none = none
emptied (some calls) = some []

unfoldable pub handle_disconnect : Client → Client
handle_disconnect c = record c { subscribe_calls = emptied c.subscribe_calls }

abbrev pub window_ms : ℕ
window_ms = 3000

abbrev pub max_calls : ℕ
max_calls = 5

-- `now - t < windowMs`
abbrev pub is_recent : ℕ → ℕ → Bool
is_recent now t = ltb now (t + window_ms)

abbrev pub recent_calls : ℕ → Option (List ℕ) → List ℕ
recent_calls now calls = select (is_recent now) (or_default calls [])

-- `assertRateLimit`: the calls that are left after the filter, and whether this one is let through.
unfoldable pub assert_rate_limit : ℕ → Action Client ⊤
assert_rate_limit now = do
  modify (λ c. record c { subscribe_calls = some (recent_calls now c.subscribe_calls) })
  full ← gets (λ c. leb max_calls (length (or_default c.subscribe_calls [])))
  throw_if full (plain (text "Rate limit exceeded"))
  modify (λ c. record c { subscribe_calls = some (or_default c.subscribe_calls [] ++ now ∷ []) })

-- A client's call may read the application.
abbrev pub Socket : Type 0
Socket = Client × App

abbrev pub on_client : {A : Type 0} → Action Client A → Action Socket A
on_client m (c, w) = let (r, c') = m c in (r, (c', w))

abbrev pub on_app : {A : Type 0} → Action App A → Action Socket A
on_app m (c, w) = let (r, w') = m w in (r, (c, w'))

-- `WsException` with the text of the error.
abbrev pub ws_exception : Exception → Exception
ws_exception (bad_request m) = plain m
ws_exception (conflict m) = plain m
ws_exception (forbidden m) = plain m
ws_exception (not_found m) = plain m
ws_exception (unauthorized m) = plain m
ws_exception (gateway_timeout m) = plain m
ws_exception (service_unavailable m) = plain m
ws_exception (plain m) = plain m
ws_exception timeout_error = plain (text "Timeout has occurred")
ws_exception (coded c) = plain (text "Subscription denied")

unfoldable pub subscribe_order : ℕ → Option Uuid → Action Socket ⊤
subscribe_order now order_id = do
  on_client (assert_rate_limit now)
  i ← or_throw order_id (plain (text "orderId is required"))
  user ← gets (λ s. s.0.user)
  u ← or_throw user (plain (text "Unauthenticated"))
  try_catch (on_app (can_subscribe_to_order i u)) (λ e. throw (ws_exception e))
  on_client (modify (λ c. record c { rooms = i ∷ delete_where (λ r. r == i) c.rooms }))

unfoldable pub unsubscribe_order : Option Uuid → Action Socket ⊤
unsubscribe_order order_id = do
  i ← or_throw order_id (plain (text "orderId is required"))
  on_client (modify (λ c. record c { rooms = delete_where (λ r. r == i) c.rooms }))

-- `emitOrderStatus`: the clients that an event reaches.
abbrev pub reached : OrderStatusChangedEvent → Client → Bool
reached e c = c.connected && mem e.order_id c.rooms
