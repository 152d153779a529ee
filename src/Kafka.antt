-- ===== src/Kafka.antt =====
-- The wrapper of kafkajs (src/kafka/kafka.service.ts). What the cluster answers is a parameter; what it
-- accepted is part of the state.
mod Stopping
pub mod Wrapper
pub mod PaymentEvents
pub mod Normalizer
pub mod RoundTrip
pub mod Groups
pub mod Consumers
pub mod Audit
mod Tests
use package.text.Mathlib.Text.{◌==◌ as str_eq}
use e_commerce_order_platfor.Common.{
  ⊤, ℕ, String, Bool, true, false, not, ◌&&◌, ◌||◌, Option, none, some, List, [], ◌∷◌, ◌++◌, Action,
  pure, throw, throw_if, gets, modify, ◌>>=◌, ◌>>◌, Result, plain, text, any, if◌then◌else◌,
}
use e_commerce_order_platfor.Files.Text.{is_empty}

-- `IKafkaConfig`, what the service reads of it; an absent text counts as empty.
pub record KafkaConfig : Type 0 where
  pub enabled : Bool
  pub topic_orders_events : String
  pub topic_partitions : ℕ

pub record Record : Type 0 where
  pub topic : String
  pub key : String
  pub value : String

pub record Subscription : Type 0 where
  pub group_id : String
  pub topic : String

-- The fields of the service (a client that is connected or null), and the cluster's topics and records.
pub record KafkaService : Type 0 where
  pub producer : Bool
  pub admin : Bool
  pub enabled : Bool
  pub kafka : Bool
  pub consumers : List Subscription
  pub topics : List String
  pub records : List Record

-- How the calls of kafkajs end.
pub record Cluster : Type 0 where
  pub admin_connects : Result ⊤
  pub fetches_metadata : Result ⊤
  pub creates_topic : Result ⊤
  pub producer_connects : Result ⊤
  pub sends : Result ⊤
  pub consumer_runs : Result ⊤
  pub consumer_disconnects : Subscription → Result ⊤
  pub producer_disconnects : Result ⊤
  pub admin_disconnects : Result ⊤

abbrev pub call : Result ⊤ → Action KafkaService ⊤
call r k = (r, k)

abbrev pub has_topic : String → KafkaService → Bool
has_topic topic k = any (str_eq topic) k.topics

abbrev pub create_topic : Cluster → String → Action KafkaService ⊤
create_topic cluster topic = do
  call cluster.creates_topic
  modify (λ k. record k { topics = k.topics ++ topic ∷ [] })

abbrev pub ensure_topics : Cluster → KafkaConfig → Action KafkaService ⊤
ensure_topics cluster cfg = do
  admin ← gets (λ k. k.admin)
  throw_if (not admin) (plain (text "Kafka admin is not initialized"))
  throw_if (is_empty cfg.topic_orders_events) (plain (text "Kafka orders topic is not configured"))
  call cluster.fetches_metadata
  existing ← gets (has_topic cfg.topic_orders_events)
  if existing then pure tt else create_topic cluster cfg.topic_orders_events

abbrev pub start : Cluster → KafkaConfig → Action KafkaService ⊤
start cluster cfg = do
  modify (λ k. record k { admin = true })
  call cluster.admin_connects
  ensure_topics cluster cfg
  modify (λ k. record k { producer = true })
  call cluster.producer_connects
  modify (λ k. record k { enabled = true; kafka = true })

unfoldable pub on_module_init : Cluster → Option KafkaConfig → Action KafkaService ⊤
on_module_init cluster none = pure tt
on_module_init cluster (some cfg) = if cfg.enabled then start cluster cfg else pure tt

abbrev pub disconnect_all : Cluster → List Subscription → Action KafkaService ⊤
disconnect_all cluster [] = pure tt
disconnect_all cluster (s ∷ consumers) = do
  call (cluster.consumer_disconnects s)
  disconnect_all cluster consumers

abbrev pub close_producer : Cluster → Bool → Action KafkaService ⊤
close_producer cluster false = pure tt
close_producer cluster true = do
  call cluster.producer_disconnects
  modify (λ k. record k { producer = false })

abbrev pub close_admin : Cluster → Bool → Action KafkaService ⊤
close_admin cluster false = pure tt
close_admin cluster true = do
  call cluster.admin_disconnects
  modify (λ k. record k { admin = false })

unfoldable pub on_module_destroy : Cluster → Action KafkaService ⊤
on_module_destroy cluster = do
  consumers ← gets (λ k. k.consumers)
  disconnect_all cluster consumers
  modify (λ k. record k { consumers = [] })
  producer ← gets (λ k. k.producer)
  close_producer cluster producer
  admin ← gets (λ k. k.admin)
  close_admin cluster admin

-- `producer.send`
abbrev pub send : Cluster → Record → Action KafkaService ⊤
send cluster r = do call cluster.sends; modify (λ k. record k { records = k.records ++ r ∷ [] })

abbrev pub get_kafka : Action KafkaService ⊤
get_kafka = do
  kafka ← gets (λ k. k.kafka)
  throw_if (not kafka) (plain (text "Kafka is not initialized"))

-- The consumer connects, subscribes and starts.
abbrev pub run_consumer : Cluster → Subscription → Action KafkaService ⊤
run_consumer cluster s = do
  get_kafka
  call cluster.consumer_runs
  modify (λ k. record k { consumers = k.consumers ++ s ∷ [] })

unfoldable pub publish : Cluster → String → String → String → Action KafkaService ⊤
publish cluster topic key value = do
  ready ← gets (λ k. k.enabled && k.producer)
  if ready then send cluster (record { topic = topic; key = key; value = value }) else pure tt

-- `consume`, up to the loop of the consumer, which is in Groups.
unfoldable pub consume : Cluster → String → String → Action KafkaService ⊤
consume cluster group_id topic = do
  enabled ← gets (λ k. k.enabled)
  if enabled then run_consumer cluster (record { group_id = group_id; topic = topic }) else pure tt
