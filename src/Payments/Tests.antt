-- ===== src/Payments/Tests.antt =====
-- Paying for one order (src/payments/payments.service.ts) over a slow network.
use e_commerce_order_platfor.Common.{
  ◌≡◌, refl, true, none, some, [], ◌∷◌, ok, err, text, gateway_timeout,
}
use e_commerce_order_platfor.Common.Int.{pos}
use e_commerce_order_platfor.Database.{EOrderStatus, EPaymentStatus, Payment, Order}
use e_commerce_order_platfor.Auth.{ERoles, AuthUser}
use e_commerce_order_platfor.Payments.{PayEnv, Desk, in_time, late, pay_order, can_activate}
use e_commerce_order_platfor.Payments.Paying.{
  as_captured, paid_desk, authorized_is_paid, late_capture_then_pay,
}

abbrev order : Order
order = record {
  id = 100;
  status = EOrderStatus.pending;
  items_subtotal = 1250;
  items_discount_total = 0;
  shipping_amount = 0;
  order_discount_amount = 0;
  total_amount = pos 1250;
  idempotency_key = 900;
  user_id = 1;
  status_version = 0;
  created_at = 7;
  updated_at = 7;
  processed_at = none;
}

abbrev authorized : Payment
authorized = record {
  id = 400;
  status = EPaymentStatus.pending;
  order_id = 100;
  paid_at = none;
  paid_amount = pos 1250;
  idempotency_key = 900;
}

abbrev desk_with : Payment → Desk
desk_with p = record {
  app = record {
    session = record {
      db = record {
        users = [];
        products = [];
        orders = order ∷ [];
        order_items = [];
        payments = p ∷ [];
        outbox_events = [];
        processed_messages = [];
        files = [];
        product_images = [];
      };
      tx = none;
      stranded = 0;
    };
    orders_created = 0;
    orders_failed = 0;
    status_changes = [];
    audit = [];
  };
  published = [];
}

abbrev buyer : AuthUser
buyer = record { sub = 1; roles = some (ERoles.user ∷ []); scopes = none }

abbrev env : PayEnv
env = record {
  payment_id = 401;
  now = 30;
  authorize_network = in_time;
  capture_network = in_time;
  driver_message = λ c. text c;
  kafka_enabled = true;
  topic_payments_events = some "payments.events";
  publish_fails = none;
}

authorized_is_paid_example :
    ((pay_order env 100 buyer (desk_with authorized)).0 ≡ ok (as_captured 30 authorized))
    × ((pay_order env 100 buyer (desk_with authorized)).1.app
        ≡ (paid_desk env buyer order authorized (desk_with authorized)).app)
authorized_is_paid_example =
    authorized_is_paid env 100 buyer order authorized (desk_with authorized) (refl, refl, refl) refl
      refl

late_capture_then_pay_example :
    let w' =
      (pay_order (record env { capture_network = late }) 100 buyer (desk_with authorized)).1 in
    ((pay_order (record env { capture_network = late }) 100 buyer (desk_with authorized)).0
      ≡ err (gateway_timeout (text "Payments capture timeout")))
    × (pay_order env 100 buyer w' ≡ (ok (as_captured 30 authorized), w'))
late_capture_then_pay_example =
    late_capture_then_pay (record env { capture_network = late }) env 100 buyer order authorized
      (desk_with authorized) (refl, refl, refl) refl refl

passes :
    can_activate (some buyer) (some 100) (desk_with authorized).app
    ≡ (ok true, (desk_with authorized).app)
unfolding can_activate
passes = refl
