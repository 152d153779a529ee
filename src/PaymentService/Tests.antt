-- ===== src/PaymentService/Tests.antt =====
-- The payments service of src/payment-service on one order.
use e_commerce_order_platfor.Common.{◌≡◌, refl, none, some, List, [], ◌∷◌, ok, text}
use e_commerce_order_platfor.Common.Int.{pos}
use e_commerce_order_platfor.Database.{Uuid, EOrderStatus, EPaymentStatus, Order, Payment, Session}
use e_commerce_order_platfor.PaymentService.Status.{PaymentStatus, to_proto_status}
use e_commerce_order_platfor.PaymentService.Service.{
  AuthorizeRequest, AuthorizeResponse, Authorization, authorize, validate_authorize_request,
  save_payment, capture, refund, payment_by_id, done,
}
use e_commerce_order_platfor.PaymentService.Atomic.{
  Call, CallIsSettled, authorize_call, capture_call, refund_call, call-IsSettled,
}
use e_commerce_order_platfor.PaymentService.Lifecycle.{run, Kept, run-Kept}
use e_commerce_order_platfor.PaymentService.Outcomes.{payment_lifecycle}
use e_commerce_order_platfor.PaymentService.Ledger.{Step, to_authorize, to_capture, to_refund}
use e_commerce_order_platfor.PaymentService.Tables.{ledger_of}
use e_commerce_order_platfor.PaymentService.Refinement.{
  outcome_of, answer_of, service_refines_ledger,
}

abbrev order : Order
order = record {
  id = 100;
  status = EOrderStatus.pending;
  items_subtotal = 1250;
  items_discount_total = 0;
  shipping_amount = 0;
  order_discount_amount = 0;
  total_amount = pos 1250;
  idempotency_key = 900;
  user_id = 1;
  status_version = 0;
  created_at = 7;
  updated_at = 7;
  processed_at = none;
}

abbrev empty : Session
empty = record {
  db = record {
    users = [];
    products = [];
    orders = order ∷ [];
    order_items = [];
    payments = [];
    outbox_events = [];
    processed_messages = [];
    files = [];
    product_images = [];
  };
  tx = none;
  stranded = 0;
}

abbrev request : AuthorizeRequest
request = record {
  order_id = some 100;
  user_id = some 1;
  total = some (record { amount = some (pos 1250); currency = some "USD" });
  idempotency_key = some 900;
}

abbrev checked : Authorization
checked = record { order_id = 100; idempotency_key = 900; amount = pos 1250 }

abbrev authorized : AuthorizeResponse
authorized = record {
  payment_id = 400;
  status = PaymentStatus.authorized;
  message = text "Payment authorized";
}

is_valid : validate_authorize_request request ≡ ok checked
unfolding validate_authorize_request
is_valid = refl

authorizes : (authorize 400 request empty).0 ≡ ok authorized
unfolding authorize validate_authorize_request save_payment to_proto_status
authorizes = refl

payment_lifecycle_example :
    let s1 = (authorize 400 request empty).1 in
    let s2 = (capture 8 (some 400) s1).1 in
    ((capture 8 (some 400) s1).0 ≡ ok (done "Payment " 400 " captured"))
    × ((refund (some 400) none s2).0 ≡ ok (done "Payment " 400 " refunded"))
    × (payment_by_id 400 (refund (some 400) none s2).1.db
        ≡ some (record {
          id = 400;
          status = EPaymentStatus.refunded;
          order_id = 100;
          paid_at = some 8;
          paid_amount = pos 1250;
          idempotency_key = 900;
        }))
payment_lifecycle_example =
    payment_lifecycle 400 8 none request checked empty authorized is_valid refl refl authorizes

-- The same order with a payment of each status but the authorized one.
abbrev payment_of : Uuid → EPaymentStatus → Payment
payment_of i status = record {
  id = i;
  status = status;
  order_id = 100;
  paid_at = none;
  paid_amount = pos 1250;
  idempotency_key = i;
}

abbrev authorized_payment : Payment
authorized_payment = payment_of 400 EPaymentStatus.pending

abbrev failed_payment : Payment
failed_payment = payment_of 401 EPaymentStatus.failed

abbrev two_payments : Session
two_payments = record empty {
  db = record empty.db { payments = authorized_payment ∷ failed_payment ∷ [] };
}

abbrev some_calls : List Call
some_calls =
    authorize_call 402 request
    ∷ capture_call 8 (some 400)
    ∷ refund_call (some 401) none
    ∷ refund_call (some 400) none
    ∷ capture_call 9 (some 400)
    ∷ []

run-Kept_example : Kept 400 authorized_payment (run some_calls two_payments)
run-Kept_example = run-Kept some_calls 400 authorized_payment two_payments refl

call-IsSettled_example : CallIsSettled (capture_call 8 (some 400)) two_payments
call-IsSettled_example = call-IsSettled (capture_call 8 (some 400)) two_payments refl

service_refines_ledger_example :
    Step
      (ledger_of two_payments.db)
      (to_authorize 100 900 402)
      (answer_of (authorize 402 request two_payments).0)
      (ledger_of (authorize 402 request two_payments).1.db)
    × Step
        (ledger_of two_payments.db)
        (to_capture 400)
        (outcome_of (capture 8 (some 400) two_payments).0)
        (ledger_of (capture 8 (some 400) two_payments).1.db)
    × Step
        (ledger_of two_payments.db)
        (to_refund 400)
        (outcome_of (refund (some 400) none two_payments).0)
        (ledger_of (refund (some 400) none two_payments).1.db)
service_refines_ledger_example =
    service_refines_ledger 402 8 400 none request checked two_payments is_valid refl
