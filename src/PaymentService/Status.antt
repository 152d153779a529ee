-- ===== src/PaymentService/Status.antt =====
-- src/payment-service/status.mapper.ts, and the wire enum of src/generated/payments/v1/payments.ts.
use e_commerce_order_platfor.Common.{Bool, true, false, ◌≡◌, refl, Result, ok, err, plain, text}
use e_commerce_order_platfor.Database.{EPaymentStatus}

pub data PaymentStatus : Type 0 where
  unspecified authorized captured refunded failed unrecognized : PaymentStatus

-- `a === b` on the wire statuses.
abbrev pub same_proto : PaymentStatus → PaymentStatus → Bool
same_proto PaymentStatus.unspecified PaymentStatus.unspecified = true
same_proto PaymentStatus.authorized PaymentStatus.authorized = true
same_proto PaymentStatus.captured PaymentStatus.captured = true
same_proto PaymentStatus.refunded PaymentStatus.refunded = true
same_proto PaymentStatus.failed PaymentStatus.failed = true
same_proto PaymentStatus.unrecognized PaymentStatus.unrecognized = true
same_proto a b = false

-- The `default` branch cannot be reached: the column is an enum of these five values.
unfoldable pub to_proto_status : EPaymentStatus → PaymentStatus
to_proto_status EPaymentStatus.pending = PaymentStatus.authorized
to_proto_status EPaymentStatus.paid = PaymentStatus.captured
to_proto_status EPaymentStatus.failed = PaymentStatus.failed
to_proto_status EPaymentStatus.refunded = PaymentStatus.refunded
to_proto_status EPaymentStatus.unpaid = PaymentStatus.unspecified

unfoldable pub to_db_status : PaymentStatus → Result EPaymentStatus
to_db_status PaymentStatus.authorized = ok EPaymentStatus.pending
to_db_status PaymentStatus.captured = ok EPaymentStatus.paid
to_db_status PaymentStatus.failed = ok EPaymentStatus.failed
to_db_status PaymentStatus.refunded = ok EPaymentStatus.refunded
to_db_status PaymentStatus.unspecified = ok EPaymentStatus.unpaid
to_db_status PaymentStatus.unrecognized =
    err (plain (text "Unknown payment status for Payment entity"))

to_db_status-to_proto_status : (s : EPaymentStatus) → to_db_status (to_proto_status s) ≡ ok s
unfolding to_db_status to_proto_status
to_db_status-to_proto_status EPaymentStatus.pending = refl
to_db_status-to_proto_status EPaymentStatus.paid = refl
to_db_status-to_proto_status EPaymentStatus.failed = refl
to_db_status-to_proto_status EPaymentStatus.refunded = refl
to_db_status-to_proto_status EPaymentStatus.unpaid = refl
