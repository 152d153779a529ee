-- ===== src/Kafka/Normalizer.antt =====
-- The reader of payment events, `parsePaymentEvent` of src/payments/payments-events-normalizer.ts.
use Prim.Native.String.{String}
use package.text.Mathlib.Text.{◌==◌ as str_eq}
use e_commerce_order_platfor.Common.{
  ℕ, ◌||◌, Option, none, some, Result, ok, err, plain, text, ◌==◌, if◌then◌else◌,
}
use e_commerce_order_platfor.Files.Text.{is_empty}
use e_commerce_order_platfor.Kafka.PaymentEvents.{
  LifecycleStatus, PaymentEventBaseData, Value, PaymentFields, EnvelopeFields, Parsed, Js,
  authorized, captured, failed, missing, null, string, number, boolean, other, object, scalar,
}

pub record NormalizedPaymentEvent : Type 0 where
  pub event_name : String
  pub schema_version : ℕ
  pub event_id : String
  pub occurred_at : ℕ
  pub base : PaymentEventBaseData
  pub status : LifecycleStatus
  pub provider_transaction_id : Option String
  pub failure_reason : Option String

-- `Number(v)`, where it is a natural number.
abbrev pub to_number : Js → Value → Option ℕ
to_number js missing = none
to_number js null = some 0
to_number js (string s) = js.number_of s
to_number js (number n) = some n
to_number js (boolean b) = some (if b then 1 else 0)
to_number js (other s) = js.number_of s

-- `String(v ?? d)`
abbrev pub to_text : Js → String → Value → String
to_text js d missing = d
to_text js d null = d
to_text js d (string s) = s
to_text js d (number n) = js.text_of n
to_text js d (boolean b) = if b then "true" else "false"
to_text js d (other s) = s

-- `typeof v === 'string' ? v : null`
abbrev pub string_in : Value → Option String
string_in (string s) = some s
string_in missing = none
string_in null = none
string_in (number n) = none
string_in (boolean b) = none
string_in (other s) = none

abbrev required : Option String → String → Result String
required none what = err (plain (text what))
required (some s) what = if is_empty s then err (plain (text what)) else ok s

abbrev pub status_of : String → Option LifecycleStatus
status_of s =
    if str_eq s "AUTHORIZED"
    then some authorized
    else if str_eq s "CAPTURED"
    then some captured
    else if str_eq s "FAILED"
    then some failed
    else none

abbrev result_of : {A : Type 0} → Option A → String → Result A
result_of none what = err (plain (text what))
result_of (some a) what = ok a

abbrev pub is_supported : Option ℕ → Option ℕ
is_supported none = none
is_supported (some n) = if n == 1 || n == 2 then some n else none

infixl 5 ◌and_then◌
abbrev pub ◌and_then◌ : {A B : Type 0} → Result A → (A → Result B) → Result B
ok a and_then f = f a
err e and_then f = err e

abbrev pub base_of : Js → PaymentFields → PaymentEventBaseData
base_of js p = record {
  payment_id = to_text js "" p.payment_id;
  order_id = to_text js "" p.order_id;
  amount = to_text js "0.00" p.amount;
  currency = to_text js "USD" p.currency;
  provider = to_text js "unknown" p.provider;
}

abbrev pub lifecycle_of : Js → PaymentFields → Result LifecycleStatus
lifecycle_of js p =
    let status = to_text js "" p.status in
    let base = base_of js p in
    if is_empty base.payment_id || is_empty base.order_id || is_empty status
    then err (plain (text "payment payload is missing required fields"))
    else result_of (status_of status) "Unknown payment lifecycle status"

abbrev pub normalize : Js → EnvelopeFields → Result NormalizedPaymentEvent
normalize js e =
    result_of (is_supported (to_number js e.schema_version)) "Unsupported schemaVersion"
    and_then λ version. required (string_in e.event_name) "eventName is required" and_then λ name.
        required (string_in e.event_id) "eventId is required" and_then λ event_id.
        required (string_in e.occurred_at) "occurredAt is required" and_then λ time.
        result_of (js.date_of time) "occurredAt has invalid format" and_then λ occurred_at.
        lifecycle_of js e.payment and_then λ status. ok (record {
          event_name = name;
          schema_version = version;
          event_id = event_id;
          occurred_at = occurred_at;
          base = base_of js e.payment;
          status = status;
          provider_transaction_id = string_in e.payment.provider_transaction_id;
          failure_reason = string_in e.payment.failure_reason;
        })

abbrev from_parsed : Js → Option Parsed → Result NormalizedPaymentEvent
from_parsed js none = err (plain (text "Invalid JSON in Kafka payment event"))
from_parsed js (some scalar) = err (plain (text "Invalid payment event envelope"))
from_parsed js (some (object e)) = normalize js e

unfoldable pub parse_payment_event : Js → String → Result NormalizedPaymentEvent
parse_payment_event js raw = from_parsed js (js.parse raw)
