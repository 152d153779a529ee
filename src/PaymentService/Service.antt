-- ===== src/PaymentService/Service.antt =====
-- `PaymentsService` of src/payment-service/payments.service.ts. An empty string in a request is
-- `none`; an amount is `none` where `Number(amount)` is not finite.
use e_commerce_order_platfor.Common.{
  ℕ, ◌^◌, String, Bool, true, not, ◌&&◌, Option, none, some, [], ◌∷◌, ◌++◌, Action, pure, throw,
  throw_if, gets, modify, or_throw, try_catch, finally, ◌>>=◌, ◌>>◌, Result, ok, err, Message, text,
  about, Exception, plain, coded, find, any, update_where, ◌==◌, if◌then◌else◌,
}
use e_commerce_order_platfor.Common.Int.{ℤ, pos, leb_ℤ}
use e_commerce_order_platfor.Database.{
  Uuid, EPaymentStatus, Payment, Database, Session, start_transaction, commit, rollback, release,
  in_tx,
}
use e_commerce_order_platfor.PaymentService.Status.{
  PaymentStatus, same_proto, to_proto_status, to_db_status,
}

pub record Money : Type 0 where
  pub amount : Option ℤ
  pub currency : Option String

pub record AuthorizeRequest : Type 0 where
  pub order_id : Option Uuid
  pub user_id : Option Uuid
  pub total : Option Money
  pub idempotency_key : Option Uuid

pub record AuthorizeResponse : Type 0 where
  pub payment_id : Uuid
  pub status : PaymentStatus
  pub message : Message

pub record GetPaymentStatusResponse : Type 0 where
  pub payment_id : Uuid
  pub status : PaymentStatus
  pub order_id : Uuid

-- The field is `ok` in the source.
pub record OperationResponse : Type 0 where
  pub is_ok : Bool
  pub message : Message

-- What the checks leave of a request, with the `undefined` cases gone.
pub record Authorization : Type 0 where
  pub order_id : Uuid
  pub idempotency_key : Uuid
  pub amount : ℤ

-- An error of the validation or of a lookup.
abbrev pub failure : String → Exception
failure s = plain (text s)

positive : Option ℤ → Result ℤ
positive none = err (failure "Invalid amount for Money in payment authorization")
positive (some a) =
    if leb_ℤ a (pos 0)
    then err (failure "Invalid amount for Money in payment authorization")
    else ok a

check_currency : Option String → ℤ → Uuid → Uuid → Result Authorization
check_currency none a o k = err (failure "Invalid currency")
check_currency (some c) a o k = ok (record { order_id = o; idempotency_key = k; amount = a })

check_amount : Money → Result ℤ → Uuid → Uuid → Result Authorization
check_amount m (ok a) o k = check_currency m.currency a o k
check_amount m (err e) o k = err e

check_present : Option Uuid → Option Uuid → Option Money → Option Uuid → Result Authorization
unfolding positive check_currency check_amount
check_present (some o) (some u) (some m) (some k) = check_amount m (positive m.amount) o k
check_present o u m k = err (failure "Invalid request for payment authorization")

unfoldable pub validate_authorize_request : AuthorizeRequest → Result Authorization
unfolding check_present
validate_authorize_request r = check_present r.order_id r.user_id r.total r.idempotency_key

abbrev pub has_key : Uuid → Uuid → Payment → Bool
has_key o k p = p.order_id == o && p.idempotency_key == k

abbrev pub has_id : Uuid → Payment → Bool
has_id i p = p.id == i

abbrev pub payment_by_key : Uuid → Uuid → Database → Option Payment
payment_by_key o k d = find (has_key o k) d.payments

abbrev pub payment_by_id : Uuid → Database → Option Payment
payment_by_id i d = find (has_id i) d.payments

-- The first amount that `numeric(12, 2)` does not hold, in cents.
abbrev pub numeric_bound : ℕ
numeric_bound = 10 ^ 12

-- `paymentRepository.save`: the foreign key on the order, the bound of the amount's column, and the
-- unique key on (order_id, idempotency_key), in the driver's codes.
unfoldable pub save_payment : Payment → Action Database Payment
save_payment p = do
  throw_if (leb_ℤ (pos numeric_bound) p.paid_amount) (coded "22003")
  orders ← gets (λ d. d.orders)
  throw_if (not (any (λ o. o.id == p.order_id) orders)) (coded "23503")
  twin ← gets (λ d. any (has_key p.order_id p.idempotency_key) d.payments)
  throw_if twin (coded "23505")
  modify (λ d. record d { payments = d.payments ++ p ∷ [] })
  pure p

-- `createQueryRunner`, `startTransaction`, the `try` block, and the `catch` and `finally` that the
-- three operations share.
unfoldable pub with_query_runner : {A : Type 0} → Action Session A → Action Session A
with_query_runner body = do
  modify start_transaction
  finally (try_catch body (λ e. modify rollback >> throw e)) release

abbrev pub response : Payment → String → AuthorizeResponse
response p s = record { payment_id = p.id; status = to_proto_status p.status; message = text s }

-- `paymentRepository.create`; the columns that it does not name have their defaults.
abbrev pub new_payment : Uuid → Authorization → EPaymentStatus → Payment
new_payment fresh a status = record {
  id = fresh;
  status = status;
  order_id = a.order_id;
  paid_at = none;
  paid_amount = a.amount;
  idempotency_key = a.idempotency_key;
}

-- The branches of `authorize` on the payment that `findOne` returns; the new payment's id is the
-- database's choice.
authorize_new : Uuid → Authorization → Option Payment → Action Session AuthorizeResponse
authorize_new fresh a (some p) = do modify rollback; pure (response p "Payment already authorized")
authorize_new fresh a none = do
  status ← (λ s. (to_db_status PaymentStatus.authorized, s))
  saved ← in_tx (save_payment (new_payment fresh a status))
  modify commit
  pure (response saved "Payment authorized")

unfoldable pub authorize : Uuid → AuthorizeRequest → Action Session AuthorizeResponse
unfolding authorize_new with_query_runner to_db_status
authorize fresh request = do
  a ← (λ s. (validate_authorize_request request, s))
  with_query_runner do
    found ← in_tx (gets (payment_by_key a.order_id a.idempotency_key))
    authorize_new fresh a found

-- Outside a transaction: it reads what is committed.
unfoldable pub get_payment_status : Uuid → Action Session GetPaymentStatusResponse
get_payment_status i = do
  found ← gets (λ s. payment_by_id i s.db)
  p ← or_throw found (plain (about "Payment " i " not found"))
  pure (record { payment_id = p.id; status = to_proto_status p.status; order_id = p.order_id })

abbrev pub done : String → Uuid → String → OperationResponse
done before i after = record { is_ok = true; message = about before i after }

-- The rest of `capture` for the payment that was found.
capture_payment : ℕ → Uuid → Payment → Action Session OperationResponse
capture_payment now i p =
    if same_proto (to_proto_status p.status) PaymentStatus.captured
    then (modify commit >> pure (done "Payment " p.id " already captured"))
    else if not (same_proto (to_proto_status p.status) PaymentStatus.authorized)
    then throw (plain (about "Payment " p.id " is not in AUTHORIZED status and cannot be captured"))
    else do
      status ← (λ s. (to_db_status PaymentStatus.captured, s))
      in_tx (
          modify (λ d. record d {
            payments =
                update_where (has_id i) (λ q. record q { status = status; paid_at = some now })
                  d.payments;
          }))
      modify commit
      pure (done "Payment " p.id " captured")

unfoldable pub capture : ℕ → Option Uuid → Action Session OperationResponse
unfolding capture_payment with_query_runner to_db_status to_proto_status
capture now none = throw (failure "Empty payment id")
capture now (some i) = with_query_runner do
  found ← in_tx (gets (payment_by_id i))
  p ← or_throw found (failure "Payment doesn`t exist")
  capture_payment now i p

-- The rest of `refund`; the amount of the request is not read.
refund_payment : Uuid → Payment → Action Session OperationResponse
refund_payment i p =
    if same_proto (to_proto_status p.status) PaymentStatus.refunded
    then (modify commit >> pure (done "Payment " p.id " already refunded"))
    else if not (same_proto (to_proto_status p.status) PaymentStatus.captured)
    then throw (plain (about "Payment " p.id " is not in CAPTURED status and cannot be refunded"))
    else do
      status ← (λ s. (to_db_status PaymentStatus.refunded, s))
      in_tx (
          modify (λ d. record d {
            payments = update_where (has_id i) (λ q. record q { status = status }) d.payments;
          }))
      modify commit
      pure (done "Payment " p.id " refunded")

unfoldable pub refund : Option Uuid → Option Money → Action Session OperationResponse
unfolding refund_payment with_query_runner to_db_status to_proto_status
refund none amount = throw (failure "Empty payment id")
refund (some i) amount = with_query_runner do
  found ← in_tx (gets (payment_by_id i))
  p ← or_throw found (plain (about "Payment " i " not found"))
  refund_payment i p
