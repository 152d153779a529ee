-- ===== src/Kafka/RoundTrip.antt =====
-- What src/payments/payments-events.publisher.ts sends is what src/payments/payments-events-normalizer.ts
-- reads.
use Prim.Native.String.{String}
use e_commerce_order_platfor.Common.{
  ⊤, ℕ, ◌≡◌, refl, true, false, Option, none, some, [], ◌∷◌, ◌++◌, Action, ok,
}
use e_commerce_order_platfor.Files.Text.{is_empty}
use e_commerce_order_platfor.Kafka.{KafkaService, publish}
use e_commerce_order_platfor.Kafka.PaymentEvents.{
  LifecycleStatus, authorized, captured, failed, status_text, PaymentEventBaseData,
  PaymentEventPayload, PaymentEventEnvelope, Value, missing, string, number, EnvelopeFields, object,
  Js, PublishEnv, envelope_of, publish_event, if_enabled, authorized_payload, captured_payload,
  failed_payload, publish_authorized, publish_captured, publish_failed,
}
use e_commerce_order_platfor.Kafka.Normalizer.{
  NormalizedPaymentEvent, parse_payment_event, normalize, lifecycle_of, string_in, is_supported,
}

abbrev optional : Option String → Value
optional none = missing
optional (some s) = string s

-- What JSON keeps of a message.
abbrev pub fields_of : PaymentEventEnvelope → EnvelopeFields
fields_of e = record {
  schema_version = number e.schema_version;
  event_name = string e.event_name;
  event_id = string e.event_id;
  occurred_at = string e.occurred_at;
  payment = record {
    payment_id = string e.payment.base.payment_id;
    order_id = string e.payment.base.order_id;
    amount = string e.payment.base.amount;
    currency = string e.payment.base.currency;
    provider = string e.payment.base.provider;
    status = string (status_text e.payment.status);
    provider_transaction_id = optional e.payment.provider_transaction_id;
    failure_reason = optional e.payment.failure_reason;
  };
}

abbrev pub normalized : PublishEnv → String → ℕ → PaymentEventPayload → NormalizedPaymentEvent
normalized env name version p = record {
  event_name = name;
  schema_version = version;
  event_id = env.random_uuid;
  occurred_at = env.now;
  base = p.base;
  status = p.status;
  provider_transaction_id = p.provider_transaction_id;
  failure_reason = p.failure_reason;
}

-- What JSON promises of a message, and dates of a time: what was written reads back.
abbrev pub ReadsBack : Js → PaymentEventEnvelope → Type 0
ReadsBack js e = js.parse (js.stringify e) ≡ some (object (fields_of e))

abbrev pub IsDated : Js → ℕ → Type 0
IsDated js t = (js.date_of (js.iso_string t) ≡ some t) × (is_empty (js.iso_string t) ≡ false)

-- A publication adds one record, and its value reads back as the event.
pub Delivers :
    PublishEnv → KafkaService → Action KafkaService ⊤ → String → NormalizedPaymentEvent → Type 0
Delivers env k m order_id e =
    (value : String) × (m k ≡ (
      ok tt,
      record k {
        records = k.records ++ record { topic = env.topic; key = order_id; value = value } ∷ [];
      },
    ))
    × (parse_payment_event env.js value ≡ ok e)

optional_lem : (o : Option String) → string_in (optional o) ≡ o
optional_lem none = refl
optional_lem (some s) = refl

lifecycle_lem :
    (env : PublishEnv) (name : String) (version : ℕ) (p : PaymentEventPayload) (s : LifecycleStatus)
    → is_empty p.base.payment_id ≡ false
    → is_empty p.base.order_id ≡ false
    → lifecycle_of env.js
        (fields_of (envelope_of env name version (record p { status = s }))).payment
      ≡ ok s
lifecycle_lem env name version p authorized paid ordered = rw (paid, ordered) refl
lifecycle_lem env name version p captured paid ordered = rw (paid, ordered) refl
lifecycle_lem env name version p failed paid ordered = rw (paid, ordered) refl

normalize_lem :
    (env : PublishEnv) (name : String) (version : ℕ) (p : PaymentEventPayload)
    → IsDated env.js env.now
    → is_supported (some version) ≡ some version
    → is_empty name ≡ false
    → is_empty env.random_uuid ≡ false
    → is_empty p.base.payment_id ≡ false
    → is_empty p.base.order_id ≡ false
    → normalize env.js (fields_of (envelope_of env name version p))
      ≡ ok (normalized env name version p)
normalize_lem env name version p law known named id paid ordered =
    rw
      (
        known,
        named,
        id,
        law.1,
        law.0,
        lifecycle_lem env name version p p.status paid ordered,
        optional_lem p.provider_transaction_id,
        optional_lem p.failure_reason,
      )
      refl

publish_event-Delivers :
    (env : PublishEnv) (name : String) (version : ℕ) (p : PaymentEventPayload) (k : KafkaService)
    → ReadsBack env.js (envelope_of env name version p)
    → (k.enabled ≡ true) × (k.producer ≡ true)
    → env.cluster.sends ≡ ok tt
    → is_empty env.topic ≡ false
    → normalize env.js (fields_of (envelope_of env name version p))
      ≡ ok (normalized env name version p)
    → Delivers env k
        (if_enabled (publish_event env name version p))
        p.base.order_id
        (normalized env name version p)
unfolding Delivers publish parse_payment_event
publish_event-Delivers env name version p k law (on, connected) sends topic reads = (
  env.js.stringify (envelope_of env name version p),
  rw (on, topic, connected, sends) refl,
  rw law reads,
)

-- Where Kafka is enabled and connected and takes the record, the topic is configured, JSON and dates read back,
-- and the ids are not empty: each of the three publications adds one record, under the key of the order, and
-- the reader gets from its value exactly the event that was published: its name, version, id, time, payment,
-- status, and the optional field of its version.
pub published_is_read :
    (env : PublishEnv) (base : PaymentEventBaseData) (extra : Option String) (k : KafkaService)
    → ReadsBack env.js (envelope_of env "PaymentAuthorized" 1 (authorized_payload base))
      × ReadsBack env.js (envelope_of env "PaymentCaptured" 2 (captured_payload base extra))
      × ReadsBack env.js (envelope_of env "PaymentFailed" 2 (failed_payload base extra))
    → IsDated env.js env.now
    → (k.enabled ≡ true) × (k.producer ≡ true)
    → env.cluster.sends ≡ ok tt
    → is_empty env.topic ≡ false
    → is_empty env.random_uuid ≡ false
    → (is_empty base.payment_id ≡ false) × (is_empty base.order_id ≡ false)
    → Delivers env k
        (publish_authorized env base)
        base.order_id
        (normalized env "PaymentAuthorized" 1 (authorized_payload base))
      × Delivers env k
          (publish_captured env base extra)
          base.order_id
          (normalized env "PaymentCaptured" 2 (captured_payload base extra))
      × Delivers env k
          (publish_failed env base extra)
          base.order_id
          (normalized env "PaymentFailed" 2 (failed_payload base extra))
unfolding publish_authorized publish_captured publish_failed
published_is_read env base extra k (json_authorized, json_captured, json_failed) law up sends topic
      id (paid, ordered) =
    (
      publish_event-Delivers env "PaymentAuthorized" 1 (authorized_payload base) k json_authorized
          up sends topic
          (normalize_lem env "PaymentAuthorized" 1 (authorized_payload base) law refl refl id paid
            ordered),
      publish_event-Delivers env "PaymentCaptured" 2 (captured_payload base extra) k json_captured
          up sends topic
          (normalize_lem env "PaymentCaptured" 2 (captured_payload base extra) law refl refl id paid
            ordered),
      publish_event-Delivers env "PaymentFailed" 2 (failed_payload base extra) k json_failed up
          sends topic
          (normalize_lem env "PaymentFailed" 2 (failed_payload base extra) law refl refl id paid
            ordered),
    )
