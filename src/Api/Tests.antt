-- ===== src/Api/Tests.antt =====
-- A buyer pays for an order through the route of src/payments/payments.controller.ts.
use e_commerce_order_platfor.Common.{
  ◌≡◌, String, Bool, true, false, none, some, [], ◌∷◌, ok, ◌⊎◌, text,
}
use e_commerce_order_platfor.Common.Int.{pos}
use e_commerce_order_platfor.Database.{EOrderStatus, Order}
use e_commerce_order_platfor.Runtime.{silent}
use e_commerce_order_platfor.Auth.{ERoles, AuthUser}
use e_commerce_order_platfor.Payments.{Desk, in_time}
use e_commerce_order_platfor.Api.{ApiEnv, pay_for, run}
use e_commerce_order_platfor.Api.Access.{MayChange, changes_are_allowed}

abbrev order : Order
order = record {
  id = 100;
  status = EOrderStatus.pending;
  items_subtotal = 1250;
  items_discount_total = 0;
  shipping_amount = 0;
  order_discount_amount = 0;
  total_amount = pos 1250;
  idempotency_key = 900;
  user_id = 1;
  status_version = 0;
  created_at = 7;
  updated_at = 7;
  processed_at = none;
}

abbrev desk : Desk
desk = record {
  app = record {
    session = record {
      db = record {
        users = [];
        products = [];
        orders = order ∷ [];
        order_items = [];
        payments = [];
        outbox_events = [];
        processed_messages = [];
        files = [];
        product_images = [];
      };
      tx = none;
      stranded = 0;
    };
    orders_created = 0;
    orders_failed = 0;
    status_changes = [];
    audit = [];
  };
  published = [];
}

abbrev buyer : AuthUser
buyer = record { sub = 1; roles = some (ERoles.user ∷ []); scopes = none }

abbrev same : String → String → Bool
same a b = true

abbrev env : ApiEnv
env = record {
  meanwhile = λ w. w;
  creation = record {
    order_id = 101;
    item_id = λ p. p;
    message_id = 201;
    event_id = 202;
    process_row_id = 301;
    placed_row_id = 302;
    now = 30;
    rivals = [];
    payments_grpc_timeout_ms = none;
    authorize = λ r. silent;
    is_reached = true;
    payment_id = 401;
  };
  payments = record {
    payment_id = 401;
    now = 30;
    authorize_network = in_time;
    capture_network = in_time;
    driver_message = λ c. text c;
    kafka_enabled = true;
    topic_payments_events = none;
    publish_fails = none;
  };
  files = record {
    new_id = 50;
    random_uuid = 51;
    now = 30;
    s3 = record {
      region = "eu-central-1";
      bucket = "shop";
      endpoint = none;
      force_path_style = false;
      cloudfront_base_url = none;
      default_expires_in_sec = 900;
      get_signed_url = λ c n. ok "url";
      head_object = λ b k. ok tt;
      virtual_host = λ u b. u;
    };
    uuid_text = λ i. "u";
  };
  users = record { new_id = 60; now = 30; hash = λ s. s };
  codec = record { stringify = λ c. []; parse = λ t. none };
  now = 30;
  compare = same;
  ilike = same;
}

changes_are_allowed_example :
    MayChange (ok buyer) (pay_for 100) desk ⊎ ((run env (ok buyer) (pay_for 100) desk).1 ≡ desk)
changes_are_allowed_example = changes_are_allowed env (ok buyer) (pay_for 100) desk
