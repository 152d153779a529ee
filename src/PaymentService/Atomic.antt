-- ===== src/PaymentService/Atomic.antt =====
-- What every operation of src/payment-service/payments.service.ts leaves behind, however it ends.
use e_commerce_order_platfor.Common.{ℕ, ◌≡◌, Option, none, some, Result, ok, err, arith}
use e_commerce_order_platfor.Database.{Uuid, Session}
use e_commerce_order_platfor.PaymentService.Service.{
  Money, AuthorizeRequest, authorize, validate_authorize_request, save_payment, capture, refund,
}

-- A call of one of the three operations that write.
pub data Call : Type 0 where
  authorize_call : Uuid → AuthorizeRequest → Call
  capture_call : ℕ → Option Uuid → Call
  refund_call : Option Uuid → Option Money → Call

-- The session after a call.
unfoldable pub after : Call → Session → Session
after (authorize_call fresh request) s = (authorize fresh request s).1
after (capture_call now i) s = (capture now i s).1
after (refund_call i amount) s = (refund i amount s).1

-- No transaction stays open, no connection goes back with one, and a call that throws has
-- committed nothing.
abbrev pub IsSettled : {A : Type 0} → Session → Result A × Session → Type 0
IsSettled s (ok a, s') = (s'.tx ≡ none) × (s'.stranded ≡ s.stranded)
IsSettled s (err e, s') = (s'.tx ≡ none) × (s'.stranded ≡ s.stranded) × (s'.db ≡ s.db)

-- What a call does, as far as its session shows it.
abbrev pub CallIsSettled : Call → Session → Type 0
CallIsSettled (authorize_call fresh request) s = IsSettled s (authorize fresh request s)
CallIsSettled (capture_call now i) s = IsSettled s (capture now i s)
CallIsSettled (refund_call i amount) s = IsSettled s (refund i amount s)

-- Started with no open transaction, each of the three calls ends with none and strands no
-- connection; one that throws leaves the committed database as it was.
pub call-IsSettled : (c : Call) (s : Session) → s.tx ≡ none → CallIsSettled c s
unfolding authorize validate_authorize_request save_payment capture refund
call-IsSettled (authorize_call fresh request) s h = ground arith
call-IsSettled (capture_call now none) s h = ground arith
call-IsSettled (capture_call now (some i)) s h = ground arith
call-IsSettled (refund_call none amount) s h = ground arith
call-IsSettled (refund_call (some i) amount) s h = ground arith
