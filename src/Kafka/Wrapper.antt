-- ===== src/Kafka/Wrapper.antt =====
-- What the users of src/kafka/kafka.service.ts can rely on, over any sequence of its calls.
use e_commerce_order_platfor.Common.{
  String, Bool, ◌≡◌, refl, true, false, not, ◌&&◌, Option, none, some, List, [], ◌∷◌, if◌then◌else◌,
  ok, arith, inl, inr, Bool-cases, Result-cases,
}
use e_commerce_order_platfor.Files.Text.{is_empty}
use e_commerce_order_platfor.Kafka.Stopping.{disconnect_all-state}
use e_commerce_order_platfor.Kafka.{
  KafkaConfig, KafkaService, Cluster, disconnect_all, close_admin, close_producer, has_topic,
  ensure_topics, on_module_init, on_module_destroy, publish, consume, start,
}

pub data Call : Type 0 where
  init : Cluster → Option KafkaConfig → Call
  destroy : Cluster → Call
  publication : Cluster → String → String → String → Call
  consumption : Cluster → String → String → Call

abbrev pub run_call : Call → KafkaService → KafkaService
run_call (init cluster cfg) k = (on_module_init cluster cfg k).1
run_call (destroy cluster) k = (on_module_destroy cluster k).1
run_call (publication cluster topic key value) k = (publish cluster topic key value k).1
run_call (consumption cluster group topic) k = (consume cluster group topic k).1

abbrev pub run : List Call → KafkaService → KafkaService
run [] k = k
run (c ∷ cs) k = run cs (run_call c k)

-- An enabled service has its client.
abbrev pub IsUsable : KafkaService → Type 0
IsUsable k = (k.enabled && not k.kafka) ≡ false

ensure_topics-IsUsable :
    (cluster : Cluster) (cfg : KafkaConfig) (k : KafkaService)
    → IsUsable k
    → IsUsable (ensure_topics cluster cfg k).1
ensure_topics-IsUsable cluster cfg k h = elim (Bool-cases k.admin) [
  | inr e ↦ rw e h
  | inl e ↦ elim (Bool-cases (is_empty cfg.topic_orders_events)) [
    | inl n ↦ rw (e, n) h
    | inr n ↦ elim (Result-cases cluster.fetches_metadata) [
      | inr (x, f) ↦ rw (e, n, f) h
      | inl (u, f) ↦ elim (Bool-cases (has_topic cfg.topic_orders_events k)) [
        | inl t ↦ rw (e, n, f, t) h
        | inr t ↦ elim (Result-cases cluster.creates_topic) [
          | inl (v, c) ↦ rw (e, n, f, t, c) h
          | inr (x, c) ↦ rw (e, n, f, t, c) h
        ]
      ]
    ]
  ]
]

start-IsUsable :
    (cluster : Cluster) (cfg : KafkaConfig) (k : KafkaService)
    → IsUsable k
    → IsUsable (start cluster cfg k).1
start-IsUsable cluster cfg k h =
    let k1 = record k { admin = true } in
    let usable = ensure_topics-IsUsable cluster cfg k1 h in
    elim (Result-cases cluster.admin_connects) [
      | inr (x, e) ↦ rw e h
      | inl (u, e) ↦ elim (Result-cases (ensure_topics cluster cfg k1).0) [
        | inr (x, t) ↦ rw (e, t) usable
        | inl (v, t) ↦ elim (Result-cases cluster.producer_connects) [
          | inr (x, p) ↦ rw (e, t, p) usable
          | inl (v', p) ↦ rw (e, t, p) refl
        ]
      ]
    ]

init-IsUsable :
    (cluster : Cluster) (cfg : Option KafkaConfig) (k : KafkaService)
    → IsUsable k
    → IsUsable (on_module_init cluster cfg k).1
unfolding on_module_init
init-IsUsable cluster none k h = h
init-IsUsable cluster (some cfg) k h = elim (Bool-cases cfg.enabled) [
  | inr off ↦ rw off h
  | inl on ↦ rw on (start-IsUsable cluster cfg k h)
]

publish-IsUsable :
    (cluster : Cluster) (topic key value : String) (k : KafkaService)
    → IsUsable k
    → IsUsable (publish cluster topic key value k).1
unfolding publish
publish-IsUsable cluster topic key value k h = elim (Bool-cases (k.enabled && k.producer)) [
  | inr off ↦ rw off h
  | inl on ↦ elim (Result-cases cluster.sends) [
    | inl (u, e) ↦ rw (on, e) h
    | inr (x, e) ↦ rw (on, e) h
  ]
]

consume-IsUsable :
    (cluster : Cluster) (group topic : String) (k : KafkaService)
    → IsUsable k
    → IsUsable (consume cluster group topic k).1
unfolding consume
consume-IsUsable cluster group topic k h = elim (Bool-cases k.enabled) [
  | inr off ↦ rw off refl
  | inl on ↦ elim (Result-cases cluster.consumer_runs) [
    | inl (u, e) ↦ ground arith
    | inr (x, e) ↦ ground arith
  ]
]

close_admin-IsUsable :
    (cluster : Cluster) (b : Bool) (k : KafkaService)
    → IsUsable k
    → IsUsable (close_admin cluster b k).1
close_admin-IsUsable cluster false k h = h
close_admin-IsUsable cluster true k h = elim (Result-cases cluster.admin_disconnects) [
  | inl (u, e) ↦ rw e h
  | inr (x, e) ↦ rw e h
]

close_producer-IsUsable :
    (cluster : Cluster) (b : Bool) (k : KafkaService)
    → IsUsable k
    → IsUsable (close_producer cluster b k).1
close_producer-IsUsable cluster false k h = h
close_producer-IsUsable cluster true k h = elim (Result-cases cluster.producer_disconnects) [
  | inl (u, e) ↦ rw e h
  | inr (x, e) ↦ rw e h
]

destroy-IsUsable :
    (cluster : Cluster) (k : KafkaService) → IsUsable k → IsUsable (on_module_destroy cluster k).1
unfolding on_module_destroy
destroy-IsUsable cluster k h =
    let same = disconnect_all-state cluster k.consumers k in
    let k1 : KafkaService = record k { consumers = [] } in
    let closed = close_producer-IsUsable cluster k1.producer k1 h in
    let (r, k2) = close_producer cluster k1.producer k1 in
    elim (Result-cases (disconnect_all cluster k.consumers k).0) [
      | inr (x, e) ↦ rw (e, same) h
      | inl (u, e) ↦ elim (Result-cases (close_producer cluster k1.producer k1).0) [
        | inr (x, p) ↦ rw (e, same, p) closed
        | inl (v, p) ↦ rw (e, same, p) (close_admin-IsUsable cluster k2.admin k2 closed)
      ]
    ]

run_call-IsUsable : (c : Call) (k : KafkaService) → IsUsable k → IsUsable (run_call c k)
run_call-IsUsable (init cluster cfg) k h = init-IsUsable cluster cfg k h
run_call-IsUsable (destroy cluster) k h = destroy-IsUsable cluster k h
run_call-IsUsable (publication cluster topic key value) k h =
    publish-IsUsable cluster topic key value k h
run_call-IsUsable (consumption cluster group topic) k h = consume-IsUsable cluster group topic k h

run-IsUsable : (cs : List Call) (k : KafkaService) → IsUsable k → IsUsable (run cs k)
run-IsUsable [] k h = h
run-IsUsable (c ∷ cs) k h = run-IsUsable cs (run_call c k) (run_call-IsUsable c k h)

-- Whatever calls were made of a service that started disabled, with whichever answers of the cluster: a call
-- that consumes never finds the client missing; it does nothing where the service is disabled, and
-- otherwise ends as the consumer's start ends.
consume_is_ready :
    (cs : List Call) (k : KafkaService) (cluster : Cluster) (group topic : String)
    → k.enabled ≡ false
    → let k' = run cs k in
      (consume cluster group topic k').0 ≡ (if k'.enabled then cluster.consumer_runs else ok tt)
unfolding consume
consume_is_ready cs k cluster group topic off =
    let usable = run-IsUsable cs k (rw off refl) in
    elim (Bool-cases (run cs k).enabled) [
      | inr disabled ↦ rw disabled refl
      | inl on ↦ elim (Bool-cases (run cs k).kafka) [
        | inr missing ↦ absurd (ground arith)
        | inl there ↦ elim (Result-cases cluster.consumer_runs) [
          | inl (u, e) ↦ rw (on, there, e) refl
          | inr (x, e) ↦ rw (on, there, e) refl
        ]
      ]
    ]
