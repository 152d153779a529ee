-- ===== src/Realtime/Tests.antt =====
-- A client of src/realtime/orders.gateway.ts that calls too often.
use e_commerce_order_platfor.Common.{
  ℕ, ◌≤◌, ◌≡◌, refl, true, none, some, List, [], ◌∷◌, length, select, arith,
}
use e_commerce_order_platfor.Common.Int.{pos}
use e_commerce_order_platfor.Database.{EOrderStatus}
use e_commerce_order_platfor.Runtime.{App, OrderStatusChangedEvent}
use e_commerce_order_platfor.Auth.{ERoles, AuthUser}
use e_commerce_order_platfor.Realtime.{
  Client, max_calls, assert_rate_limit, subscribe_order, unsubscribe_order, reached,
}
use e_commerce_order_platfor.Orders.Manage.{can_subscribe_to_order}
use e_commerce_order_platfor.Realtime.RateLimit.{let_through, in_window, rate_limit_holds}
use e_commerce_order_platfor.Realtime.Rooms.{
  ClientCall, subscribe, unsubscribe, calls, Readable, events_reach_readers,
}

abbrev buyer : AuthUser
buyer = record { sub = 1; roles = some (ERoles.user ∷ []); scopes = none }

abbrev client : Client
client = record { user = some buyer; subscribe_calls = some []; rooms = []; connected = true }

abbrev times : List ℕ
times = 0 ∷ 100 ∷ 200 ∷ 300 ∷ 400 ∷ 500 ∷ 3100 ∷ []

-- The sixth call is refused, the seventh is late enough.
lets_through : let_through times client ≡ 0 ∷ 100 ∷ 200 ∷ 300 ∷ 400 ∷ 3100 ∷ []
unfolding assert_rate_limit
lets_through = refl

rate_limit_holds_example : length (select (in_window 100) (let_through times client)) ≤ max_calls
rate_limit_holds_example =
    rate_limit_holds times 0 client 100
      (
        omega arith,
        (
          omega arith,
          (omega arith, (omega arith, (omega arith, (omega arith, (omega arith, tt))))),
        ),
      )
      refl

abbrev app : App
app = record {
  session = record {
    db = record {
      users = [];
      products = [];
      orders =
          (record {
            id = 100;
            status = EOrderStatus.pending;
            items_subtotal = 1250;
            items_discount_total = 0;
            shipping_amount = 0;
            order_discount_amount = 0;
            total_amount = pos 1250;
            idempotency_key = 900;
            user_id = 1;
            status_version = 0;
            created_at = 7;
            updated_at = 7;
            processed_at = none;
          })
          ∷ [];
      order_items = [];
      payments = [];
      outbox_events = [];
      processed_messages = [];
      files = [];
      product_images = [];
    };
    tx = none;
    stranded = 0;
  };
  orders_created = 0;
  orders_failed = 0;
  status_changes = [];
  audit = [];
}

abbrev event : OrderStatusChangedEvent
event = record {
  order_id = 100;
  version = 1;
  from_status = EOrderStatus.pending;
  to_status = EOrderStatus.paid;
  changed_at = 60;
}

abbrev client_calls : List ClientCall
client_calls = subscribe 0 (some 100) ∷ subscribe 10 (some 101) ∷ unsubscribe (some 101) ∷ []

receives : reached event (calls client_calls (client, app)).0 ≡ true
unfolding subscribe_order unsubscribe_order assert_rate_limit can_subscribe_to_order
receives = refl

events_reach_readers_example :
    ((calls client_calls (client, app)).1 ≡ app) × Readable app (some buyer) 100
events_reach_readers_example = events_reach_readers client_calls client app event refl receives
