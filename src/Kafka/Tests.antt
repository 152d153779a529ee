-- ===== src/Kafka/Tests.antt =====
-- One event of each kind through src/kafka, with toy texts for JSON and for dates.
use package.text.Mathlib.Text.{◌==◌ as str_eq}
use e_commerce_order_platfor.Common.{
  ℕ, String, ◌≡◌, refl, true, false, Option, none, some, List, [], ◌∷◌, ◌++◌, ok, err, plain, text,
  if◌then◌else◌,
}
use e_commerce_order_platfor.Kafka.{KafkaConfig, KafkaService, Cluster, publish, on_module_destroy}
use e_commerce_order_platfor.Kafka.Wrapper.{Call, init, publication}
use e_commerce_order_platfor.Kafka.PaymentEvents.{
  PaymentEventBaseData, PaymentEventEnvelope, Parsed, object, Js, PublishEnv, authorized_payload,
  captured_payload, failed_payload, publish_authorized, publish_captured, publish_failed,
}
use e_commerce_order_platfor.Kafka.Normalizer.{parse_payment_event}
use e_commerce_order_platfor.Kafka.RoundTrip.{fields_of, normalized, Delivers, published_is_read}
use e_commerce_order_platfor.Kafka.Groups.{restarts}
use e_commerce_order_platfor.Kafka.Consumers.{KafkaMessage, audit_message}
use e_commerce_order_platfor.Kafka.Audit.{IsReadable, audit_lines, unreadable_event_blocks_audit}

abbrev base : PaymentEventBaseData
base = record {
  payment_id = "p";
  order_id = "o";
  amount = "12.50";
  currency = "USD";
  provider = "mock";
}

abbrev cluster : Cluster
cluster = record {
  admin_connects = ok tt;
  fetches_metadata = ok tt;
  creates_topic = ok tt;
  producer_connects = ok tt;
  sends = ok tt;
  consumer_runs = ok tt;
  consumer_disconnects = λ s. ok tt;
  producer_disconnects = ok tt;
  admin_disconnects = ok tt;
}

abbrev envelope : String → ℕ → PaymentEventEnvelope
envelope name version = record {
  event_name = name;
  schema_version = version;
  event_id = "e";
  occurred_at = "t";
  payment =
      if str_eq name "PaymentAuthorized"
      then authorized_payload base
      else if str_eq name "PaymentCaptured"
      then captured_payload base (some "x")
      else failed_payload base (some "x");
}

-- A text stands for the event of its name.
abbrev toy_parse : String → Option Parsed
toy_parse s =
    if str_eq s "PaymentAuthorized"
    then some (object (fields_of (envelope "PaymentAuthorized" 1)))
    else if str_eq s "PaymentCaptured"
    then some (object (fields_of (envelope "PaymentCaptured" 2)))
    else if str_eq s "PaymentFailed"
    then some (object (fields_of (envelope "PaymentFailed" 2)))
    else none

abbrev js : Js
js = record {
  stringify = λ e. e.event_name;
  parse = toy_parse;
  number_of = λ s. none;
  text_of = λ n. "";
  date_of = λ s. some 9;
  iso_string = λ t. "t";
}

abbrev env : PublishEnv
env = record { js = js; cluster = cluster; topic = "payments"; random_uuid = "e"; now = 9 }

abbrev stopped : KafkaService
stopped = record {
  producer = false;
  admin = false;
  enabled = false;
  kafka = false;
  consumers = [];
  topics = [];
  records = [];
}

abbrev started : KafkaService
started = record stopped { producer = true; admin = true; enabled = true; kafka = true }

published_is_read_example :
    Delivers env started
      (publish_authorized env base)
      "o"
      (normalized env "PaymentAuthorized" 1 (authorized_payload base))
    × Delivers env started
        (publish_captured env base (some "x"))
        "o"
        (normalized env "PaymentCaptured" 2 (captured_payload base (some "x")))
    × Delivers env started
        (publish_failed env base (some "x"))
        "o"
        (normalized env "PaymentFailed" 2 (failed_payload base (some "x")))
published_is_read_example =
    published_is_read env base (some "x") started (refl, refl, refl) (refl, refl) (refl, refl) refl
      refl refl (refl, refl)

abbrev config : KafkaConfig
config = record { enabled = true; topic_orders_events = "orders"; topic_partitions = 3 }

abbrev calls : List Call
calls = init cluster (some config) ∷ publication cluster "orders" "k" "v" ∷ []

abbrev readable_messages : List KafkaMessage
readable_messages = some "PaymentCaptured" ∷ none ∷ some "PaymentFailed" ∷ []

reads :
    (IsReadable js (some "PaymentCaptured")
      × IsReadable js none
      × IsReadable js (some "PaymentFailed"))
unfolding IsReadable parse_payment_event
reads = (
  (normalized env "PaymentCaptured" 2 (captured_payload base (some "x")), refl),
  tt,
  (normalized env "PaymentFailed" 2 (failed_payload base (some "x")), refl),
)

bad_json : parse_payment_event js "{" ≡ err (plain (text "Invalid JSON in Kafka payment event"))
unfolding parse_payment_event
bad_json = refl

unreadable_event_blocks_audit_example :
    restarts
      (audit_message js)
      (readable_messages ++ some "{" ∷ some "PaymentCaptured" ∷ [])
      3
      (record { committed = 0; state = [] })
    ≡ record { committed = 3; state = audit_lines js readable_messages }
unreadable_event_blocks_audit_example =
    unreadable_event_blocks_audit js readable_messages "{"
      (plain (text "Invalid JSON in Kafka payment event")) (some "PaymentCaptured" ∷ []) 2
      (reads.0, (reads.1, (reads.2, tt))) bad_json

-- The service stays enabled after it stopped, and drops what it is given.
stops :
    publish cluster "payments" "o" "text" (on_module_destroy cluster started).1
    ≡ (ok tt, record started { producer = false; admin = false; consumers = [] })
unfolding publish on_module_destroy
stops = refl
