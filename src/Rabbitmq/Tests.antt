-- ===== src/Rabbitmq/Tests.antt =====
-- The delays of src/outbox/outbox-relay.service.ts and src/orders/orders-processor.consumer.ts, and the wrapper
-- of src/rabbitmq/rabbitmq.service.ts against a broker that refuses one queue.
use e_commerce_order_platfor.Common.{
  ⊤, ◌≡◌, refl, true, false, none, some, [], ◌∷◌, Result, ok, err, coded,
}
use e_commerce_order_platfor.Rabbitmq.Service.{
  Declaration, exchange, queue, binding, Amqp, PublishOptions, Publication, RabbitmqService,
  publish, on_module_init, on_module_destroy,
}
use e_commerce_order_platfor.Rabbitmq.{back_off_time}

-- The first four delays of the default configuration, and one at the cap.
delays :
    (back_off_time 1 1000 ≡ 1000)
    × (back_off_time 2 1000 ≡ 2000)
    × (back_off_time 4 1000 ≡ 8000)
    × (back_off_time 9 1000 ≡ 60000)
unfolding back_off_time
delays = (refl, refl, refl, refl)

abbrev idle : RabbitmqService
idle = record { connection = false; channel = false; declared = []; published = [] }

abbrev amqp : Amqp
amqp = record {
  connects = ok tt;
  creates_channel = ok tt;
  sets_prefetch = ok tt;
  declares = λ x. ok tt;
  has_room = true;
  closes_channel = ok tt;
  closes_connection = ok tt;
}

abbrev is_allowed : Declaration → Result ⊤
is_allowed (exchange name kind) = ok tt
is_allowed (queue name none) = ok tt
is_allowed (queue name (some target)) = err (coded "406")
is_allowed (binding name target key) = ok tt

-- A start that fails in between leaves the channel open.
refused_queue : on_module_init (record amqp { declares = is_allowed }) idle ≡ (
  err (coded "406"),
  record idle {
    connection = true;
    channel = true;
    declared = exchange "orders.exchange" "direct" ∷ queue "orders.process" none ∷ [];
  },
)
unfolding on_module_init
refused_queue = refl

abbrev delayed : PublishOptions
delayed = record { persistent = none; content_type = none; headers = none; expiration = some 2000 }

abbrev sent : Publication
sent = record {
  exchange_name = "orders.exchange";
  routing_key = "orders.retry";
  content = "{}";
  persistent = true;
  content_type = "application/json";
  headers = none;
  expiration = some 2000;
}

publishes :
    (publish
      (λ s. s)
      amqp
      "orders.retry"
      "{}"
      none
      delayed
      (on_module_init amqp idle).1).1.published
    ≡ sent ∷ []
unfolding publish on_module_init
publishes = refl

stops : (on_module_destroy amqp (record idle { connection = true; channel = true })).1 ≡ idle
unfolding on_module_destroy
stops = refl
