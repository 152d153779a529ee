-- ===== src/PaymentService/Grpc.antt =====
-- `PaymentsGrpcController` of src/payment-service/payments.grpc.controller.ts. The text of an error
-- that the database driver throws is the driver's own: a parameter.
use Prim.Native.Char.{code}
use e_commerce_order_platfor.Common.{
  ℕ, ◌+◌, String, Bool, true, false, ◌&&◌, ◌||◌, Option, List, [], ◌∷◌, map, Result, ok, err,
  Message, text, about, Exception, bad_request, conflict, forbidden, unauthorized, gateway_timeout,
  service_unavailable, plain, timeout_error, coded, leb, ◌==◌, if◌then◌else◌,
}
use e_commerce_order_platfor.Database.{Uuid, Session}
use e_commerce_order_platfor.PaymentService.Service.{
  Money, AuthorizeRequest, AuthorizeResponse, GetPaymentStatusResponse, OperationResponse,
  authorize, get_payment_status, capture, refund,
}

-- The statuses of `@grpc/grpc-js` that the controller uses.
pub data GrpcStatus : Type 0 where
  invalid_argument not_found internal : GrpcStatus

-- What a call sends back: the reply, or an `RpcException`.
pub data RpcResult (A : Type 0) : Type 0 where
  reply : A → RpcResult A
  rpc_exception : GrpcStatus → Message → RpcResult A

abbrev pub codes : String → List ℕ
codes String.[] = []
codes (String.◌∷◌ c s) = code c ∷ codes s

-- `toLowerCase` on ASCII, which the program's own messages are.
abbrev pub lower : ℕ → ℕ
lower c = if leb b'A' c && leb c b'Z' then c + 32 else c

abbrev pub starts_with : List ℕ → List ℕ → Bool
starts_with [] ys = true
starts_with (x ∷ xs) [] = false
starts_with (x ∷ xs) (y ∷ ys) = x == y && starts_with xs ys

abbrev pub includes : List ℕ → List ℕ → Bool
includes xs [] = starts_with xs []
includes xs (y ∷ ys) = starts_with xs (y ∷ ys) || includes xs ys

-- `message.toLowerCase().includes(s)`. An id stands between blanks or at the end of its message and
-- is made of hexadecimal digits and dashes, so none of the texts that are looked for meets it.
unfoldable pub mentions : String → Message → Bool
mentions s (text m) = includes (codes s) (map lower (codes m))
mentions s (about before i after) =
    includes (codes s) (map lower (codes before)) || includes (codes s) (map lower (codes after))

module _ (driver_message : String → Message) where
  -- `error.message`
  abbrev pub message_of : Exception → Message
  message_of (bad_request m) = m
  message_of (conflict m) = m
  message_of (forbidden m) = m
  message_of (Exception.not_found m) = m
  message_of (unauthorized m) = m
  message_of (gateway_timeout m) = m
  message_of (service_unavailable m) = m
  message_of (plain m) = m
  message_of timeout_error = text "Timeout has occurred"
  message_of (coded c) = driver_message c

  map_message : Message → GrpcStatus
  map_message m =
      if mentions "invalid" m || mentions "empty" m || mentions "cannot be" m
      then invalid_argument
      else if mentions "not found" m || mentions "doesn`t exist" m
      then GrpcStatus.not_found
      else internal

  unfoldable pub map_error : Exception → GrpcStatus
  unfolding map_message
  map_error e = map_message (message_of e)

  -- `try { return await … } catch (error) { throw this.mapError(error) }`
  serve : {A : Type 0} → Result A × Session → RpcResult A × Session
  serve (ok a, s) = (reply a, s)
  serve (err e, s) = (rpc_exception (map_error e) (message_of e), s)

  unfoldable pub authorize_rpc :
      Uuid → AuthorizeRequest → Session → RpcResult AuthorizeResponse × Session
  unfolding serve
  authorize_rpc fresh request s = serve (authorize fresh request s)

  unfoldable pub get_payment_status_rpc :
      Uuid → Session → RpcResult GetPaymentStatusResponse × Session
  unfolding serve
  get_payment_status_rpc i s = serve (get_payment_status i s)

  unfoldable pub capture_rpc : ℕ → Option Uuid → Session → RpcResult OperationResponse × Session
  unfolding serve
  capture_rpc now i s = serve (capture now i s)

  unfoldable pub refund_rpc :
      Option Uuid → Option Money → Session → RpcResult OperationResponse × Session
  unfolding serve
  refund_rpc i amount s = serve (refund i amount s)
