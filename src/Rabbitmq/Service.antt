-- ===== src/Rabbitmq/Service.antt =====
-- The life of the wrapper in src/rabbitmq/rabbitmq.service.ts: the connection and the channel that it holds, what it
-- declares, and what it publishes. What amqplib answers to each call is an argument, and so is JSON.
use e_commerce_order_platfor.Common.{
  ℕ, ⊤, String, Bool, true, false, not, Option, none, some, List, [], ◌∷◌, ◌++◌, Result, Action,
  pure, gets, modify, throw_if, ◌>>=◌, ◌>>◌, plain, text, or_default,
}

pub data Declaration : Type 0 where
  exchange : (name kind : String) → Declaration
  queue : (name : String) (dead_letter : Option (String × String)) → Declaration
  binding : (queue_name exchange_name routing_key : String) → Declaration

-- `Options.Publish`, as far as the program sets it.
pub record PublishOptions : Type 0 where
  pub persistent : Option Bool
  pub content_type : Option String
  pub headers : Option (List (String × String))
  pub expiration : Option ℕ

-- What a channel is given to publish.
pub record Publication : Type 0 where
  pub exchange_name : String
  pub routing_key : String
  pub content : String
  pub persistent : Bool
  pub content_type : String
  pub headers : Option (List (String × String))
  pub expiration : Option ℕ

-- The fields `connection` and `channel`, each whether it is set, and what the broker was given.
pub record RabbitmqService : Type 0 where
  pub connection : Bool
  pub channel : Bool
  pub declared : List Declaration
  pub published : List Publication

-- How the calls of amqplib end; `has_room` is what `publish` of a channel returns.
pub record Amqp : Type 0 where
  pub connects : Result ⊤
  pub creates_channel : Result ⊤
  pub sets_prefetch : Result ⊤
  pub declares : Declaration → Result ⊤
  pub has_room : Bool
  pub closes_channel : Result ⊤
  pub closes_connection : Result ⊤

abbrev answered : Result ⊤ → Action RabbitmqService ⊤
answered r s = (r, s)

abbrev pub get_channel : Action RabbitmqService ⊤
get_channel = do
  there ← gets (λ s. s.channel)
  throw_if (not there) (plain (text "RabbitMQ channel is not initialized"))

abbrev pub topology : List Declaration
topology =
    exchange "orders.exchange" "direct"
    ∷ queue "orders.process" none
    ∷ queue "orders.retry" (some ("orders.exchange", "orders.process"))
    ∷ queue "orders.dlq" none
    ∷ binding "orders.process" "orders.exchange" "orders.process"
    ∷ binding "orders.retry" "orders.exchange" "orders.retry"
    ∷ binding "orders.dlq" "orders.exchange" "orders.dlq"
    ∷ []

abbrev pub declare_all : Amqp → List Declaration → Action RabbitmqService ⊤
declare_all amqp [] = pure tt
declare_all amqp (x ∷ xs) = do
  answered (amqp.declares x)
  modify (λ s. record s { declared = s.declared ++ x ∷ [] })
  declare_all amqp xs

abbrev pub assert_infrastructure : Amqp → Action RabbitmqService ⊤
assert_infrastructure amqp = do get_channel; declare_all amqp topology

unfoldable pub on_module_init : Amqp → Action RabbitmqService ⊤
on_module_init amqp = do
  answered amqp.connects
  answered amqp.creates_channel
  modify (λ s. record s { connection = true; channel = true })
  answered amqp.sets_prefetch
  assert_infrastructure amqp

abbrev overridden : {A : Type 0} → Option A → Option A → Option A
overridden none b = b
overridden (some a) b = some a

abbrev pub publication :
    String → String → Option (List (String × String)) → PublishOptions → Publication
publication routing_key content headers options = record {
  exchange_name = "orders.exchange";
  routing_key = routing_key;
  content = content;
  persistent = or_default options.persistent true;
  content_type = or_default options.content_type "application/json";
  headers = overridden options.headers headers;
  expiration = options.expiration;
}

unfoldable pub publish :
    {A : Type 0} (stringify : A → String)
    → Amqp
    → String
    → A
    → Option (List (String × String))
    → PublishOptions
    → Action RabbitmqService Bool
publish stringify amqp routing_key payload headers options = do
  get_channel
  let sent = publication routing_key (stringify payload) headers options
  modify (λ s. record s { published = s.published ++ sent ∷ [] })
  pure amqp.has_room

abbrev pub close_channel : Amqp → Action RabbitmqService ⊤
close_channel amqp = do answered amqp.closes_channel; modify (λ s. record s { channel = false })

abbrev pub close_connection : Amqp → Action RabbitmqService ⊤
close_connection amqp = do
  answered amqp.closes_connection
  modify (λ s. record s { connection = false })

abbrev if_set : Bool → Action RabbitmqService ⊤ → Action RabbitmqService ⊤
if_set true m = m
if_set false m = pure tt

unfoldable pub on_module_destroy : Amqp → Action RabbitmqService ⊤
on_module_destroy amqp = do
  channel ← gets (λ s. s.channel)
  if_set channel (close_channel amqp)
  connection ← gets (λ s. s.connection)
  if_set connection (close_connection amqp)
