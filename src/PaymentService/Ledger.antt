-- ===== src/PaymentService/Ledger.antt =====
-- What the payments microservice (src/payment-service/payments.service.ts) promises, without its tables: a
-- ledger of payments, and the steps that a request may cause.
use e_commerce_order_platfor.Common.{◌≡◌, ◌≢◌, ◌&&◌, Option, none, some, ◌==◌, if◌then◌else◌}
use e_commerce_order_platfor.Database.{Uuid, EPaymentStatus}

-- The status of each payment, and the payment of each order and idempotency key.
pub record Ledger : Type 0 where
  pub status : Uuid → Option EPaymentStatus
  pub payment_of : Uuid → Uuid → Option Uuid

-- To authorize an order under a key, where a new payment would get the id; to capture, and to refund.
pub data Request : Type 0 where
  to_authorize : (order key fresh : Uuid) → Request
  to_capture to_refund : Uuid → Request

pub data Outcome : Type 0 where
  answered : Uuid → Outcome
  done refused : Outcome

pub record Same (l m : Ledger) : Type 0 where
  pub statuses : (i : Uuid) → m.status i ≡ l.status i
  pub keys : (o k : Uuid) → m.payment_of o k ≡ l.payment_of o k

pub record Moved (i : Uuid) (status : EPaymentStatus) (l m : Ledger) : Type 0 where
  pub statuses : (j : Uuid) → m.status j ≡ (if j == i then some status else l.status j)
  pub keys : (o k : Uuid) → m.payment_of o k ≡ l.payment_of o k

pub record Opened (order key i : Uuid) (l m : Ledger) : Type 0 where
  pub statuses :
      (j : Uuid) → m.status j ≡ (if i == j then some EPaymentStatus.pending else l.status j)
  pub keys :
      (o k : Uuid)
      → m.payment_of o k ≡ (if order == o && key == k then some i else l.payment_of o k)

-- The steps of the specification. A request to authorize may be refused for reasons that the ledger does not
-- know (an invalid amount, an unknown order), but not where the key has its payment already.
pub data Step (l : Ledger) : Request → Outcome → Ledger → Type 0 where
  authorizes :
      {order key fresh : Uuid} {m : Ledger}
      → l.payment_of order key ≡ none
      → Opened order key fresh l m
      → Step l (to_authorize order key fresh) (answered fresh) m
  authorized_before :
      {order key fresh i : Uuid} {m : Ledger}
      → l.payment_of order key ≡ some i
      → Same l m
      → Step l (to_authorize order key fresh) (answered i) m
  authorize_refused :
      {order key fresh : Uuid} {m : Ledger}
      → l.payment_of order key ≡ none
      → Same l m
      → Step l (to_authorize order key fresh) refused m
  captures :
      {i : Uuid} {m : Ledger}
      → l.status i ≡ some EPaymentStatus.pending
      → Moved i EPaymentStatus.paid l m
      → Step l (to_capture i) done m
  captured_before :
      {i : Uuid} {m : Ledger}
      → l.status i ≡ some EPaymentStatus.paid
      → Same l m
      → Step l (to_capture i) done m
  capture_refused :
      {i : Uuid} {m : Ledger}
      → l.status i ≢ some EPaymentStatus.pending
      → l.status i ≢ some EPaymentStatus.paid
      → Same l m
      → Step l (to_capture i) refused m
  refunds :
      {i : Uuid} {m : Ledger}
      → l.status i ≡ some EPaymentStatus.paid
      → Moved i EPaymentStatus.refunded l m
      → Step l (to_refund i) done m
  refunded_before :
      {i : Uuid} {m : Ledger}
      → l.status i ≡ some EPaymentStatus.refunded
      → Same l m
      → Step l (to_refund i) done m
  refund_refused :
      {i : Uuid} {m : Ledger}
      → l.status i ≢ some EPaymentStatus.paid
      → l.status i ≢ some EPaymentStatus.refunded
      → Same l m
      → Step l (to_refund i) refused m
