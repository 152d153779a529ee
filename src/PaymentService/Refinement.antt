-- ===== src/PaymentService/Refinement.antt =====
-- The operations of src/payment-service/payments.service.ts as steps of the ledger.
use e_commerce_order_platfor.Common.{
  ℕ, ◌≡◌, ◌≢◌, refl, ap, Option, none, some, Result, ok, err, inl, inr, arith, Option-cases,
  Result-cases, update_where,
}
use e_commerce_order_platfor.Database.{Uuid, EPaymentStatus, Session, Database}
use e_commerce_order_platfor.PaymentService.Service.{
  AuthorizeRequest, AuthorizeResponse, Authorization, OperationResponse, Money, authorize, capture,
  refund, payment_by_id, payment_by_key, has_id, validate_authorize_request, save_payment,
  new_payment,
}
use e_commerce_order_platfor.PaymentService.Lifecycle.{status_cases, as_captured, as_refunded}
use e_commerce_order_platfor.PaymentService.Ledger.{
  to_authorize, to_capture, to_refund, Outcome, answered, done, refused, Step, authorized_before,
  authorize_refused, captures, captured_before, capture_refused, refunds, refunded_before,
  refund_refused,
}
use e_commerce_order_platfor.PaymentService.Tables.{
  status_in, id_in, ledger_of, Same-payments, moved, opens,
}

abbrev pub outcome_of : Result OperationResponse → Outcome
outcome_of (ok r) = done
outcome_of (err e) = refused

abbrev pub answer_of : Result AuthorizeResponse → Outcome
answer_of (ok r) = answered r.payment_id
answer_of (err e) = refused

-- A capture that is refused, and leaves the tables alone.
refuses_capture :
    (i : Uuid) (o : Outcome) (d d' : Database)
    → o ≡ refused
    → d' ≡ d
    → status_in (payment_by_id i d) ≢ some EPaymentStatus.pending
    → status_in (payment_by_id i d) ≢ some EPaymentStatus.paid
    → Step (ledger_of d) (to_capture i) o (ledger_of d')
refuses_capture i o d d' e e' a b = rw (e, e') (capture_refused a b (Same-payments d d refl))

refuses_refund :
    (i : Uuid) (o : Outcome) (d d' : Database)
    → o ≡ refused
    → d' ≡ d
    → status_in (payment_by_id i d) ≢ some EPaymentStatus.paid
    → status_in (payment_by_id i d) ≢ some EPaymentStatus.refunded
    → Step (ledger_of d) (to_refund i) o (ledger_of d')
refuses_refund i o d d' e e' a b = rw (e, e') (refund_refused a b (Same-payments d d refl))

capture-Step :
    (now : ℕ) (i : Uuid) (s : Session)
    → Step
        (ledger_of s.db)
        (to_capture i)
        (outcome_of (capture now (some i) s).0)
        (ledger_of (capture now (some i) s).1.db)
unfolding capture
capture-Step now i s = elim (Option-cases (payment_by_id i s.db)) [
  | inl missing ↦
      rw missing (capture_refused (ground arith) (ground arith) (Same-payments s.db s.db refl))
  | inr (p, found) ↦ elim (status_cases EPaymentStatus.pending p.status) [
    | inl e ↦
        let d' = record s.db {
          payments = update_where (has_id i) (as_captured now) s.db.payments;
        } in
        rw (found, e)
          (captures (ground arith) (
            moved i EPaymentStatus.paid (as_captured now) (λ q. refl) (λ q. refl) (λ o k q. refl) p
              s.db d' found refl))
    | inr ne ↦ elim (status_cases EPaymentStatus.paid p.status) [
      | inl e ↦ rw (found, e) (captured_before (ground arith) (Same-payments s.db s.db refl))
      | inr ne' ↦
          refuses_capture i (outcome_of (capture now (some i) s).0) s.db
            (capture now (some i) s).1.db (ground arith) (ground arith) (ground arith)
            (ground arith)
    ]
  ]
]

refund-Step :
    (i : Uuid) (amount : Option Money) (s : Session)
    → Step
        (ledger_of s.db)
        (to_refund i)
        (outcome_of (refund (some i) amount s).0)
        (ledger_of (refund (some i) amount s).1.db)
unfolding refund
refund-Step i amount s = elim (Option-cases (payment_by_id i s.db)) [
  | inl missing ↦
      rw missing (refund_refused (ground arith) (ground arith) (Same-payments s.db s.db refl))
  | inr (p, found) ↦ elim (status_cases EPaymentStatus.paid p.status) [
    | inl e ↦
        let d' = record s.db { payments = update_where (has_id i) as_refunded s.db.payments } in
        rw (found, e)
          (refunds (ground arith) (
            moved i EPaymentStatus.refunded as_refunded (λ q. refl) (λ q. refl) (λ o k q. refl) p
              s.db d' found refl))
    | inr ne ↦ elim (status_cases EPaymentStatus.refunded p.status) [
      | inl e ↦ rw (found, e) (refunded_before (ground arith) (Same-payments s.db s.db refl))
      | inr ne' ↦
          refuses_refund i (outcome_of (refund (some i) amount s).0) s.db
            (refund (some i) amount s).1.db (ground arith) (ground arith) (ground arith)
            (ground arith)
    ]
  ]
]

refuses_authorize :
    (order key fresh : Uuid) (o : Outcome) (d d' : Database)
    → payment_by_key order key d ≡ none
    → o ≡ refused
    → d' ≡ d
    → Step (ledger_of d) (to_authorize order key fresh) o (ledger_of d')
refuses_authorize order key fresh o d d' free e e' =
    rw (e, e') (authorize_refused (ap (λ q. id_in q) free) (Same-payments d d refl))

authorize-Step :
    (fresh : Uuid) (r : AuthorizeRequest) (a : Authorization) (s : Session)
    → validate_authorize_request r ≡ ok a
    → payment_by_id fresh s.db ≡ none
    → Step
        (ledger_of s.db)
        (to_authorize a.order_id a.idempotency_key fresh)
        (answer_of (authorize fresh r s).0)
        (ledger_of (authorize fresh r s).1.db)
unfolding authorize save_payment
authorize-Step fresh r a s valid unused =
    let (res, s') = authorize fresh r s in
    elim (Option-cases (payment_by_key a.order_id a.idempotency_key s.db)) [
      | inr (p, found) ↦
          rw (valid, found) (authorized_before (ground arith) (Same-payments s.db s.db refl))
      | inl free ↦
          let p = new_payment fresh a EPaymentStatus.pending in
          elim (Result-cases (save_payment p s.db).0) [
            | inl (q, saved) ↦
                opens p (answer_of res) s.db s'.db refl unused free (ground arith) (ground arith)
            | inr (x, failed) ↦
                refuses_authorize a.order_id a.idempotency_key fresh (answer_of res) s.db s'.db free
                  (ground arith) (ground arith)
          ]
    ]

-- Every operation of the service is a step of the ledger, on the committed tables: the authorization of a
-- valid request, for which the database picks an unused id, the capture of any id, and the refund of any
-- id. So an order has one payment under a key, only an authorized payment is captured and only a captured
-- one is refunded, no other payment moves, and what is refused or repeated changes nothing.
pub service_refines_ledger :
    (fresh now : ℕ) (i : Uuid) (amount : Option Money) (r : AuthorizeRequest) (a : Authorization)
    (s : Session)
    → validate_authorize_request r ≡ ok a
    → payment_by_id fresh s.db ≡ none
    → Step
        (ledger_of s.db)
        (to_authorize a.order_id a.idempotency_key fresh)
        (answer_of (authorize fresh r s).0)
        (ledger_of (authorize fresh r s).1.db)
      × Step
          (ledger_of s.db)
          (to_capture i)
          (outcome_of (capture now (some i) s).0)
          (ledger_of (capture now (some i) s).1.db)
      × Step
          (ledger_of s.db)
          (to_refund i)
          (outcome_of (refund (some i) amount s).0)
          (ledger_of (refund (some i) amount s).1.db)
service_refines_ledger fresh now i amount r a s valid unused =
    (authorize-Step fresh r a s valid unused, capture-Step now i s, refund-Step i amount s)
