-- ===== src/PaymentService/Errors.antt =====
-- The gRPC statuses that callers of src/payment-service/payments.grpc.controller.ts see.
use e_commerce_order_platfor.Common.{
  ℕ, String, ◌≡◌, ◌≢◌, Option, none, some, Message, text, about, Exception, err, inl, inr, ◌⊎◌,
  refl, arith,
}
use e_commerce_order_platfor.Database.{Uuid, EPaymentStatus, Payment, Session}
use e_commerce_order_platfor.PaymentService.Service.{
  Money, AuthorizeRequest, authorize, failure, validate_authorize_request, capture, refund,
  payment_by_id,
}
use e_commerce_order_platfor.PaymentService.Grpc.{
  GrpcStatus, rpc_exception, mentions, map_error, capture_rpc, refund_rpc, authorize_rpc,
  message_of,
}

-- The three complaints of the validation.
validation_errors :
    (r : AuthorizeRequest) (e : Exception)
    → validate_authorize_request r ≡ err e
    → (e ≡ failure "Invalid request for payment authorization")
      ⊎ ((e ≡ failure "Invalid amount for Money in payment authorization")
          ⊎ (e ≡ failure "Invalid currency"))
unfolding validate_authorize_request
validation_errors r e h = ground arith

authorize_fails :
    (fresh : Uuid) (r : AuthorizeRequest) (s : Session) (e : Exception)
    → validate_authorize_request r ≡ err e
    → authorize fresh r s ≡ (err e, s)
unfolding authorize
authorize_fails fresh r s e h = rw h refl

module _ (driver_message : String → Message) where
  -- Where no payment has the id, capturing it and refunding it both answer NOT_FOUND, each with its own
  -- message.
  unknown_payment :
      (now : ℕ) (i : Uuid) (amount : Option Money) (s : Session)
      → payment_by_id i s.db ≡ none
      → ((capture_rpc driver_message now (some i) s).0
          ≡ rpc_exception GrpcStatus.not_found (text "Payment doesn`t exist"))
        × ((refund_rpc driver_message (some i) amount s).0
            ≡ rpc_exception GrpcStatus.not_found (about "Payment " i " not found"))
  unfolding capture_rpc refund_rpc capture refund map_error mentions
  unknown_payment now i amount s h = ground arith

  -- A payment that is neither authorized nor captured cannot be captured: the answer is INVALID_ARGUMENT,
  -- and the committed database is as before.
  pub capture_refused :
      (now : ℕ) (i : Uuid) (s : Session) (p : Payment)
      → payment_by_id i s.db ≡ some p
      → p.status ≢ EPaymentStatus.pending
      → p.status ≢ EPaymentStatus.paid
      → ((capture_rpc driver_message now (some i) s).0
          ≡ rpc_exception GrpcStatus.invalid_argument
              (about "Payment " p.id " is not in AUTHORIZED status and cannot be captured"))
        × ((capture_rpc driver_message now (some i) s).1.db ≡ s.db)
  unfolding capture_rpc capture map_error mentions
  capture_refused now i s p h a b = (ground arith, ground arith)

  -- A payment that is neither captured nor refunded cannot be refunded: the answer is INVALID_ARGUMENT,
  -- and the committed database is as before.
  pub refund_refused :
      (i : Uuid) (amount : Option Money) (s : Session) (p : Payment)
      → payment_by_id i s.db ≡ some p
      → p.status ≢ EPaymentStatus.paid
      → p.status ≢ EPaymentStatus.refunded
      → ((refund_rpc driver_message (some i) amount s).0
          ≡ rpc_exception GrpcStatus.invalid_argument
              (about "Payment " p.id " is not in CAPTURED status and cannot be refunded"))
        × ((refund_rpc driver_message (some i) amount s).1.db ≡ s.db)
  unfolding refund_rpc refund map_error mentions
  refund_refused i amount s p h a b = (ground arith, ground arith)

  -- An authorization whose order, user, total or key is missing, whose amount is not a positive number, or
  -- whose currency is missing answers INVALID_ARGUMENT and does not touch the session.
  invalid_authorization :
      (fresh : Uuid) (r : AuthorizeRequest) (s : Session) (e : Exception)
      → validate_authorize_request r ≡ err e
      → (authorize_rpc driver_message fresh r s)
        ≡ (rpc_exception GrpcStatus.invalid_argument (message_of driver_message e), s)
  unfolding authorize_rpc map_error mentions
  invalid_authorization fresh r s e h =
      let fails = authorize_fails fresh r s e h in
      elim (validation_errors r e h) [
        | inl incomplete ↦ rw (fails, incomplete) refl
        | inr (inl amount) ↦ rw (fails, amount) refl
        | inr (inr currency) ↦ rw (fails, currency) refl
      ]
