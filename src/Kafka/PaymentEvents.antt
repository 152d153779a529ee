-- ===== src/Kafka/PaymentEvents.antt =====
-- The payment events: the publisher (src/payments/payments-events.publisher.ts) and the messages
-- (src/payments/payments-kafka-event.types.ts), with the fields that a reader finds in one.
-- node's JSON, `Date`, and the conversions between numbers and texts are parameters.
use Prim.Native.String.{String}
use e_commerce_order_platfor.Common.{
  ⊤, ℕ, Bool, Option, none, Action, pure, ◌>>=◌, ◌>>◌, throw_if, gets, plain, text, if◌then◌else◌,
}
use e_commerce_order_platfor.Files.Text.{is_empty}
use e_commerce_order_platfor.Kafka.{KafkaService, Cluster, publish}

pub data LifecycleStatus : Type 0 where
  authorized captured failed : LifecycleStatus

abbrev pub status_text : LifecycleStatus → String
status_text authorized = "AUTHORIZED"
status_text captured = "CAPTURED"
status_text failed = "FAILED"

pub record PaymentEventBaseData : Type 0 where
  pub payment_id : String
  pub order_id : String
  pub amount : String
  pub currency : String
  pub provider : String

-- The payload of both versions; an optional field that is absent is none.
pub record PaymentEventPayload : Type 0 where
  pub base : PaymentEventBaseData
  pub status : LifecycleStatus
  pub provider_transaction_id : Option String
  pub failure_reason : Option String

pub record PaymentEventEnvelope : Type 0 where
  pub event_name : String
  pub schema_version : ℕ
  pub event_id : String
  pub occurred_at : String
  pub payment : PaymentEventPayload

-- A value that `JSON.parse` found in a field: `other` is an object, an array, or a number that is no natural
-- number, with its text.
pub data Value : Type 0 where
  missing null : Value
  string : String → Value
  number : ℕ → Value
  boolean : Bool → Value
  other : String → Value

-- The fields of `payment`; all are missing where it is no object.
pub record PaymentFields : Type 0 where
  pub payment_id : Value
  pub order_id : Value
  pub amount : Value
  pub currency : Value
  pub provider : Value
  pub status : Value
  pub provider_transaction_id : Value
  pub failure_reason : Value

pub record EnvelopeFields : Type 0 where
  pub schema_version : Value
  pub event_name : Value
  pub event_id : Value
  pub occurred_at : Value
  pub payment : PaymentFields

pub data Parsed : Type 0 where
  object : EnvelopeFields → Parsed
  scalar : Parsed

pub record Js : Type 0 where
  pub stringify : PaymentEventEnvelope → String
  pub parse : String → Option Parsed
  -- `Number(s)`, where it is a natural number, and `String(n)`.
  pub number_of : String → Option ℕ
  pub text_of : ℕ → String
  -- `new Date(s).getTime()`, where it is valid, and `toISOString()`.
  pub date_of : String → Option ℕ
  pub iso_string : ℕ → String

pub record PublishEnv : Type 0 where
  pub js : Js
  pub cluster : Cluster
  pub topic : String
  pub random_uuid : String
  pub now : ℕ

abbrev pub envelope_of : PublishEnv → String → ℕ → PaymentEventPayload → PaymentEventEnvelope
envelope_of env event_name schema_version payment = record {
  event_name = event_name;
  schema_version = schema_version;
  event_id = env.random_uuid;
  occurred_at = env.js.iso_string env.now;
  payment = payment;
}

-- `publish` of the publisher; an absent topic is an empty text.
abbrev pub publish_event : PublishEnv → String → ℕ → PaymentEventPayload → Action KafkaService ⊤
publish_event env event_name schema_version payment = do
  throw_if (is_empty env.topic) (plain (text "Kafka topic for payments events is not configured"))
  publish env.cluster env.topic payment.base.order_id
      (env.js.stringify (envelope_of env event_name schema_version payment))

abbrev pub if_enabled : Action KafkaService ⊤ → Action KafkaService ⊤
if_enabled m = do enabled ← gets (λ k. k.enabled); if enabled then m else pure tt

abbrev pub authorized_payload : PaymentEventBaseData → PaymentEventPayload
authorized_payload base = record {
  base = base;
  status = authorized;
  provider_transaction_id = none;
  failure_reason = none;
}

abbrev pub captured_payload : PaymentEventBaseData → Option String → PaymentEventPayload
captured_payload base i = record {
  base = base;
  status = captured;
  provider_transaction_id = i;
  failure_reason = none;
}

abbrev pub failed_payload : PaymentEventBaseData → Option String → PaymentEventPayload
failed_payload base reason = record {
  base = base;
  status = failed;
  provider_transaction_id = none;
  failure_reason = reason;
}

unfoldable pub publish_authorized : PublishEnv → PaymentEventBaseData → Action KafkaService ⊤
publish_authorized env base =
    if_enabled (publish_event env "PaymentAuthorized" 1 (authorized_payload base))

unfoldable pub publish_captured :
    PublishEnv → PaymentEventBaseData → Option String → Action KafkaService ⊤
publish_captured env base i =
    if_enabled (publish_event env "PaymentCaptured" 2 (captured_payload base i))

unfoldable pub publish_failed :
    PublishEnv → PaymentEventBaseData → Option String → Action KafkaService ⊤
publish_failed env base reason =
    if_enabled (publish_event env "PaymentFailed" 2 (failed_payload base reason))
