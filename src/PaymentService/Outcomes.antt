-- ===== src/PaymentService/Outcomes.antt =====
-- What each operation of src/payment-service/payments.service.ts does on each of its branches.
use e_commerce_order_platfor.Common.{
  ℕ, ◌≡◌, refl, ap, ◌∙◌, Option, none, some, [], ◌∷◌, Result, ok, text, arith, Result-cases,
  Option-cases, inl, inr, find-append_none, find-update_where, find_holds,
}
use e_commerce_order_platfor.Database.{Uuid, EPaymentStatus, Payment, Session}
use e_commerce_order_platfor.PaymentService.Status.{to_proto_status}
use e_commerce_order_platfor.PaymentService.Service.{
  AuthorizeRequest, AuthorizeResponse, Authorization, Money, authorize, capture, refund,
  validate_authorize_request, save_payment, new_payment, payment_by_id, payment_by_key, has_id,
  has_key, done, response,
}

-- What `authorize` answers is the payment that its key finds afterwards.
authorize_finds :
    (fresh : Uuid) (r : AuthorizeRequest) (a : Authorization) (s : Session)
    (res : AuthorizeResponse)
    → validate_authorize_request r ≡ ok a
    → (authorize fresh r s).0 ≡ ok res
    → (p : Payment) × (payment_by_key a.order_id a.idempotency_key (authorize fresh r s).1.db
        ≡ some p)
      × (res.payment_id ≡ p.id)
      × (res.status ≡ to_proto_status p.status)
unfolding authorize save_payment
authorize_finds fresh r a s res valid e =
    elim (Option-cases (payment_by_key a.order_id a.idempotency_key s.db)) [
      | inr (p, found) ↦ (p, ground arith, ground arith, ground arith)
      | inl free ↦
          let p = new_payment fresh a EPaymentStatus.pending in
          (
            p,
            ground (
              arith,
              find-append_none (has_key a.order_id a.idempotency_key) s.db.payments (p ∷ []) free,
            ),
            ground arith,
            ground arith,
          )
    ]

-- A payment that its key finds is what `authorize` answers, and nothing is written.
authorize_again :
    (fresh : Uuid) (r : AuthorizeRequest) (a : Authorization) (s : Session) (p : Payment)
    → validate_authorize_request r ≡ ok a
    → payment_by_key a.order_id a.idempotency_key s.db ≡ some p
    → authorize fresh r s ≡ (ok (response p "Payment already authorized"), record s { tx = none })
unfolding authorize
authorize_again fresh r a s p valid found = ground arith

-- A call that succeeded had a valid request.
authorize_valid :
    (fresh : Uuid) (r : AuthorizeRequest) (s : Session) (res : AuthorizeResponse)
    → (authorize fresh r s).0 ≡ ok res
    → (a : Authorization) × (validate_authorize_request r ≡ ok a)
unfolding authorize
authorize_valid fresh r s res e = elim (Result-cases (validate_authorize_request r)) [
  | inl valid ↦ valid
  | inr (x, invalid) ↦ absurd (ground arith)
]

-- Repeating an authorization that succeeded, under whatever fresh id, answers the same payment with
-- the same status, and leaves the committed database alone.
authorize_idempotent :
    (fresh fresh' : Uuid) (r : AuthorizeRequest) (s : Session) (res : AuthorizeResponse)
    → (authorize fresh r s).0 ≡ ok res
    → let s' = (authorize fresh r s).1 in
      ((authorize fresh' r s').0 ≡ ok (record res { message = text "Payment already authorized" }))
      × ((authorize fresh' r s').1.db ≡ s'.db)
authorize_idempotent fresh fresh' r s res e =
    let (a, valid) = authorize_valid fresh r s res e in
    let (p, found, same_id, same_status) = authorize_finds fresh r a s res valid e in
    let again = authorize_again fresh' r a (authorize fresh r s).1 p valid found in
    (
      ap (λ (t : Result AuthorizeResponse × Session). t.0) again ∙ ground arith,
      ap (λ (t : Result AuthorizeResponse × Session). t.1.db) again,
    )

-- `capture` of an authorized payment marks it as paid at the time of the call.
capture_authorized :
    (now : ℕ) (i : Uuid) (s : Session) (p : Payment)
    → payment_by_id i s.db ≡ some p
    → p.status ≡ EPaymentStatus.pending
    → let (r, s') = capture now (some i) s in
      (r ≡ ok (done "Payment " p.id " captured"))
      × (payment_by_id i s'.db
          ≡ some (record p { status = EPaymentStatus.paid; paid_at = some now }))
unfolding capture
capture_authorized now i s p found e =
    let at_i = find_holds (has_id i) s.db.payments p found in
    (
      ground arith,
      ground (
        arith,
        at_i,
        find-update_where (has_id i) (has_id i)
            (λ q. record q { status = EPaymentStatus.paid; paid_at = some now }) (λ q. refl)
            s.db.payments,
      ),
    )

-- `refund` of a captured payment marks it as refunded and keeps its time of payment.
refund_captured :
    (i : Uuid) (amount : Option Money) (s : Session) (p : Payment)
    → payment_by_id i s.db ≡ some p
    → p.status ≡ EPaymentStatus.paid
    → let (r, s') = refund (some i) amount s in
      (r ≡ ok (done "Payment " p.id " refunded"))
      × (payment_by_id i s'.db ≡ some (record p { status = EPaymentStatus.refunded }))
unfolding refund
refund_captured i amount s p found e =
    let at_i = find_holds (has_id i) s.db.payments p found in
    (
      ground arith,
      ground (
        arith,
        at_i,
        find-update_where (has_id i) (has_id i) (λ q. record q { status = EPaymentStatus.refunded })
            (λ q. refl) s.db.payments,
      ),
    )

-- A new authorization under an unused id is found by that id.
authorize_new_found :
    (fresh : Uuid) (r : AuthorizeRequest) (a : Authorization) (s : Session)
    (res : AuthorizeResponse)
    → validate_authorize_request r ≡ ok a
    → payment_by_id fresh s.db ≡ none
    → payment_by_key a.order_id a.idempotency_key s.db ≡ none
    → (authorize fresh r s).0 ≡ ok res
    → payment_by_id fresh (authorize fresh r s).1.db
      ≡ some (new_payment fresh a EPaymentStatus.pending)
unfolding authorize save_payment
authorize_new_found fresh r a s res valid unused free e = ground (
  arith,
  find-append_none (has_id fresh) s.db.payments (new_payment fresh a EPaymentStatus.pending ∷ []),
)

-- The whole life of a payment: an authorization that succeeds under an unused key and an unused id,
-- then its capture, then its refund, all answer with success, and the payment ends as refunded, with
-- the amount of the request and the time of the capture.
pub payment_lifecycle :
    (fresh now : ℕ) (amount : Option Money) (r : AuthorizeRequest) (a : Authorization) (s : Session)
    (res : AuthorizeResponse)
    → validate_authorize_request r ≡ ok a
    → payment_by_id fresh s.db ≡ none
    → payment_by_key a.order_id a.idempotency_key s.db ≡ none
    → (authorize fresh r s).0 ≡ ok res
    → let s1 = (authorize fresh r s).1 in
      let s2 = (capture now (some fresh) s1).1 in
      ((capture now (some fresh) s1).0 ≡ ok (done "Payment " fresh " captured"))
      × ((refund (some fresh) amount s2).0 ≡ ok (done "Payment " fresh " refunded"))
      × (payment_by_id fresh (refund (some fresh) amount s2).1.db
          ≡ some (record {
            id = fresh;
            status = EPaymentStatus.refunded;
            order_id = a.order_id;
            paid_at = some now;
            paid_amount = a.amount;
            idempotency_key = a.idempotency_key;
          }))
payment_lifecycle fresh now amount r a s res valid unused free e =
    let p = new_payment fresh a EPaymentStatus.pending in
    let s1 = (authorize fresh r s).1 in
    let (captured, found) =
      capture_authorized now fresh s1 p (authorize_new_found fresh r a s res valid unused free e)
        refl in
    let (refunded, found') =
      refund_captured fresh amount (capture now (some fresh) s1).1
        (record p { status = EPaymentStatus.paid; paid_at = some now }) found refl in
    (captured, refunded, found')
