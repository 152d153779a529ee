-- ===== src/Payments.antt =====
-- Paying for an order, `PaymentsService` of src/payments/payments.service.ts with the publisher of
-- src/payments/payments-events.publisher.ts and the guard of src/payments/guards/can-pay.guard.ts. The
-- payments microservice works on the same tables, so a call of it is its own operation on them; what the
-- network does with the call is a parameter.
pub mod Paying
mod Tests
use package.text.Mathlib.Text.{◌==◌ as str_eq}
use e_commerce_order_platfor.Common.{
  ⊤, ℕ, String, Bool, true, false, not, ◌&&◌, ◌||◌, Option, none, some, List, [], ◌∷◌, ◌++◌, Action,
  pure, throw, throw_if, gets, modify, or_throw, try_catch, ◌>>=◌, ◌>>◌, Result, ok, err, Message,
  text, about, Exception, bad_request, conflict, forbidden, not_found, unauthorized,
  gateway_timeout, service_unavailable, plain, timeout_error, coded, find, any, ◌==◌, if◌then◌else◌,
}
use e_commerce_order_platfor.Common.Int.{ℤ}
use e_commerce_order_platfor.Database.{Uuid, EPaymentStatus, Payment, Order, Database, Session}
use e_commerce_order_platfor.Runtime.{App, AuditEvent, payment_capture_requested, AuditOutcome}
use e_commerce_order_platfor.Auth.{ERoles, AuthUser, is_staff, some_of}
use e_commerce_order_platfor.PaymentService.Service.{
  AuthorizeRequest, AuthorizeResponse, OperationResponse, payment_by_id,
}
use e_commerce_order_platfor.PaymentService.Grpc.{
  GrpcStatus, invalid_argument, internal, RpcResult, reply, rpc_exception, authorize_rpc,
  capture_rpc,
}
use e_commerce_order_platfor.Orders.Manage.{has_id, orders_of, may_read}

-- What becomes of a call: the reply is there in time; the service does its work but the reply is late;
-- the service cannot be reached.
pub data Network : Type 0 where
  in_time late unreachable : Network

-- The captured event, by what it says.
pub record CapturedEvent : Type 0 where
  pub payment_id : Uuid
  pub order_id : Uuid
  pub amount : ℤ
  pub currency : String
  pub provider : String

pub record PayEnv : Type 0 where
  -- The id of a new payment, and the times of the two operations of the service.
  pub payment_id : Uuid
  pub now : ℕ
  pub authorize_network : Network
  pub capture_network : Network
  pub driver_message : String → Message
  -- `kafkaService.isEnabled()`, `kafka.topicPaymentsEvents`, and the error of a publication.
  pub kafka_enabled : Bool
  pub topic_payments_events : Option String
  pub publish_fails : Option Exception

-- The application, and the payment events that Kafka accepted.
pub record Desk : Type 0 where
  pub app : App
  pub published : List CapturedEvent

abbrev pub grpc_code : GrpcStatus → String
grpc_code invalid_argument = "3"
grpc_code GrpcStatus.not_found = "5"
grpc_code internal = "13"

abbrev pub rpc_result : {A : Type 0} → RpcResult A → Result A
rpc_result (reply a) = ok a
rpc_result (rpc_exception status m) = err (coded (grpc_code status))

abbrev pub db_of : Desk → Database
db_of w = w.app.session.db

abbrev pub with_session : Session → Desk → Desk
with_session s w = record w { app = record w.app { session = s } }

-- `lastValueFrom(call.pipe(timeout(ms)))`
abbrev pub remote : {A : Type 0} → Network → (Session → RpcResult A × Session) → Action Desk A
remote in_time call w = let (r, s) = call w.app.session in (rpc_result r, with_session s w)
remote late call w = let (r, s) = call w.app.session in (err timeout_error, with_session s w)
remote unreachable call w = (err (coded "14"), w)

abbrev pub of_order : Uuid → Payment → Bool
of_order i p = p.order_id == i

abbrev pub authorize_request : Order → AuthorizeRequest
authorize_request o = record {
  order_id = some o.id;
  user_id = some o.user_id;
  total = some (record { amount = some o.total_amount; currency = some "USD" });
  idempotency_key = some o.idempotency_key;
}

-- The payment of an order that has none: authorized, then read.
abbrev pub authorize_payment : PayEnv → Order → Action Desk Payment
authorize_payment env o = do
  r ←
      remote env.authorize_network
        (authorize_rpc env.driver_message env.payment_id (authorize_request o))
  found ← gets (λ w. payment_by_id r.payment_id (db_of w))
  or_throw found (not_found (about "Payment " r.payment_id " not found after authorization"))

abbrev pub existing_or_authorized : PayEnv → Order → Option Payment → Action Desk Payment
existing_or_authorized env o (some p) = pure p
existing_or_authorized env o none = authorize_payment env o

abbrev captured_event : Payment → Order → CapturedEvent
captured_event p o = record {
  payment_id = p.id;
  order_id = o.id;
  amount = o.total_amount;
  currency = "USD";
  provider = "mock";
}

-- `publish` of the publisher.
abbrev pub publish_captured : PayEnv → CapturedEvent → Action Desk ⊤
publish_captured env e =
    if env.kafka_enabled
    then (do
      or_throw env.topic_payments_events
          (plain (text "Kafka topic for payments events is not configured"))
      elim env.publish_fails [ some x ↦ throw x | none ↦ pure tt ]
      modify (λ w. record w { published = w.published ++ e ∷ [] }))
    else pure tt

-- `publishCapturedEvent`: an error is only logged.
abbrev pub publish_captured_event : PayEnv → Payment → Order → Action Desk ⊤
publish_captured_event env p o =
    try_catch (publish_captured env (captured_event p o)) (λ e. pure tt)

abbrev pub audited : AuditEvent → Action Desk ⊤
audited e = modify (λ w. record w { app = record w.app { audit = w.app.audit ++ e ∷ [] } })

abbrev pub success_audit : AuthUser → Payment → AuditEvent
success_audit u p = record {
  action = payment_capture_requested;
  actor_id = some u.sub;
  target_type = "payment";
  target_id = some p.id;
  outcome = AuditOutcome.success;
  reason = none;
}

-- The text of the reason is that of the error.
abbrev pub failure_audit : AuthUser → Uuid → Message → AuditEvent
failure_audit u i reason = record {
  action = payment_capture_requested;
  actor_id = some u.sub;
  target_type = "order";
  target_id = some i;
  outcome = AuditOutcome.failure;
  reason = some reason;
}

abbrev pub is_paid : EPaymentStatus → Bool
is_paid EPaymentStatus.paid = true
is_paid EPaymentStatus.unpaid = false
is_paid EPaymentStatus.pending = false
is_paid EPaymentStatus.failed = false
is_paid EPaymentStatus.refunded = false

abbrev pub capture_and_read : PayEnv → AuthUser → Order → Payment → Action Desk Payment
capture_and_read env u o p = do
  r ← remote env.capture_network (capture_rpc env.driver_message env.now (some p.id))
  throw_if (not r.is_ok) (service_unavailable r.message)
  found ← gets (λ w. payment_by_id p.id (db_of w))
  updated ← or_throw found (not_found (about "Payment " p.id " not found"))
  publish_captured_event env updated o
  audited (success_audit u updated)
  pure updated

abbrev pub capture_unless_paid : PayEnv → AuthUser → Order → Payment → Action Desk Payment
capture_unless_paid env u o p = if is_paid p.status then pure p else capture_and_read env u o p

abbrev pub reason_of : PayEnv → Exception → Message
reason_of env (bad_request m) = m
reason_of env (conflict m) = m
reason_of env (forbidden m) = m
reason_of env (not_found m) = m
reason_of env (unauthorized m) = m
reason_of env (gateway_timeout m) = m
reason_of env (service_unavailable m) = m
reason_of env (plain m) = m
reason_of env timeout_error = text "Timeout has occurred"
reason_of env (coded c) = env.driver_message c

abbrev pub mapped_error : Exception → Exception
mapped_error (bad_request m) = bad_request m
mapped_error (conflict m) = conflict m
mapped_error (forbidden m) = forbidden m
mapped_error (not_found m) = not_found m
mapped_error (unauthorized m) = unauthorized m
mapped_error (gateway_timeout m) = gateway_timeout m
mapped_error (service_unavailable m) = service_unavailable m
mapped_error (plain m) = plain m
mapped_error timeout_error = gateway_timeout (text "Payments capture timeout")
mapped_error (coded c) = service_unavailable (text "Payments service unavailable")

-- The `try` block and the `catch` block.
unfoldable pub pay : PayEnv → AuthUser → Order → Option Payment → Action Desk Payment
pay env u o found =
    try_catch (existing_or_authorized env o found >>= capture_unless_paid env u o)
      (λ e. audited (failure_audit u o.id (reason_of env e)) >> throw (mapped_error e))

unfoldable pub pay_order : PayEnv → Uuid → AuthUser → Action Desk Payment
pay_order env i u = do
  order ← gets (λ w. find (λ o. has_id i o && may_read u o) (orders_of w.app))
  o ← or_throw order (not_found (text "Order not found"))
  found ← gets (λ w. find (of_order i) (db_of w).payments)
  pay env u o found

abbrev pub is_support_or_admin : ERoles → Bool
is_support_or_admin ERoles.support = true
is_support_or_admin ERoles.admin = true
is_support_or_admin ERoles.owner = false
is_support_or_admin ERoles.user = false

-- `canActivate` of the guard, on the user of the request and the order's id in its path.
unfoldable pub can_activate : Option AuthUser → Option Uuid → Action App Bool
can_activate user order_id = do
  i ← or_throw order_id (bad_request (text "Order is not specified"))
  found ← gets (λ w. find (has_id i) (orders_of w))
  o ← or_throw found (not_found (text "Order not found"))
  u ← or_throw user (unauthorized (text "User not authenticated"))
  let allowed =
      o.user_id == u.sub
      || (some_of is_support_or_admin u.roles && some_of (λ s. str_eq s "payment:write") u.scopes)
  throw_if (not allowed) (forbidden (text "Not allowed to pay this order"))
  pure true
