-- ===== src/Kafka/Consumers.antt =====
-- The consumers of the payment events (src/payments/payments-audit.consumer.ts,
-- src/payments/payments-analytics.consumer.ts) and of the order events (src/orders/orders-crm.consumer.ts,
-- src/orders/orders-analytics.consumer.ts). Their state is what they log.
use Prim.Native.String.{String}
use package.text.Mathlib.Text.{◌==◌ as str_eq}
use e_commerce_order_platfor.Common.{
  ⊤, Bool, false, not, Option, none, some, List, [], ◌∷◌, ◌++◌, Action, pure, throw, modify, gets,
  ◌>>=◌, ◌||◌, Result, ok, err, plain, text, if◌then◌else◌,
}
use e_commerce_order_platfor.Files.Text.{is_empty}
use e_commerce_order_platfor.Kafka.{KafkaService, Cluster, consume}
use e_commerce_order_platfor.Kafka.PaymentEvents.{Js, Value, string, LifecycleStatus}
use e_commerce_order_platfor.Kafka.Normalizer.{NormalizedPaymentEvent, parse_payment_event}

-- The settings of a consumer; an absent text is empty.
pub record Settings : Type 0 where
  pub topic : String
  pub group_id : String

-- `onApplicationBootstrap`; all four consumers do the same with their own settings.
unfoldable pub on_application_bootstrap : Cluster → Settings → Action KafkaService ⊤
on_application_bootstrap cluster settings = do
  enabled ← gets (λ k. k.enabled)
  if not enabled || is_empty settings.topic || is_empty settings.group_id
      then pure tt
      else consume cluster settings.group_id settings.topic

-- A message by its value.
abbrev pub KafkaMessage : Type 0
KafkaMessage = Option String

-- What a line of the log says of an event.
pub record AuditLine : Type 0 where
  pub event_id : String
  pub event_name : String
  pub payment_id : String
  pub status : LifecycleStatus

pub record AnalyticsLine : Type 0 where
  pub event_id : String
  pub event_name : String
  pub order_id : String
  pub amount : String

abbrev pub audit_line : NormalizedPaymentEvent → AuditLine
audit_line e = record {
  event_id = e.event_id;
  event_name = e.event_name;
  payment_id = e.base.payment_id;
  status = e.status;
}

abbrev analytics_line : NormalizedPaymentEvent → AnalyticsLine
analytics_line e = record {
  event_id = e.event_id;
  event_name = e.event_name;
  order_id = e.base.order_id;
  amount = e.base.amount;
}

abbrev log_parsed :
    {L : Type 0} → (NormalizedPaymentEvent → L) → Result NormalizedPaymentEvent → Action (List L) ⊤
log_parsed line (err e) = throw e
log_parsed line (ok e) = modify (λ ls. ls ++ line e ∷ [])

-- `handleMessage` of the audit consumer.
abbrev pub audit_message : Js → KafkaMessage → Action (List AuditLine) ⊤
audit_message js none = pure tt
audit_message js (some value) = log_parsed audit_line (parse_payment_event js value)

-- `handleMessage` of the analytics consumer of payments.
abbrev pub analytics_message : Js → KafkaMessage → Action (List AnalyticsLine) ⊤
analytics_message js none = pure tt
analytics_message js (some value) = log_parsed analytics_line (parse_payment_event js value)

-- What the consumers of orders read of an event: the name, and what they log of it, with the texts of its
-- values; none where `event.order` is null or missing.
pub record OrderEvent : Type 0 where
  pub event_name : Value
  pub logged : Option (String × String × String)

-- `JSON.parse`: a syntax error, a value without fields that throws when it is read, or an event.
pub data ParsedOrder : Type 0 where
  syntax_error : ParsedOrder
  nothing : ParsedOrder
  event : OrderEvent → ParsedOrder

abbrev is_order_placed : Value → Bool
is_order_placed (string s) = str_eq s "OrderPlaced"
is_order_placed v = false

abbrev log_order : Option (String × String × String) → Action (List (String × String × String)) ⊤
log_order none = throw (plain (text "TypeError"))
log_order (some line) = modify (λ ls. ls ++ line ∷ [])

abbrev on_order : ParsedOrder → Action (List (String × String × String)) ⊤
on_order syntax_error = throw (plain (text "SyntaxError"))
on_order nothing = throw (plain (text "TypeError"))
on_order (event e) = if is_order_placed e.event_name then log_order e.logged else pure tt

-- `handleMessage` of both consumers of orders.
abbrev pub order_message :
    (String → ParsedOrder) → KafkaMessage → Action (List (String × String × String)) ⊤
order_message parse none = pure tt
order_message parse (some value) = on_order (parse value)
