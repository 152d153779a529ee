-- ===== src/Kafka/Stopping.antt =====
-- The service of src/kafka/kafka.service.ts after it stopped.
use e_commerce_order_platfor.Common.{
  String, Bool, ◌≡◌, ◌∙◌, refl, true, false, List, [], ◌∷◌, ok, arith, inl, inr, Result-cases,
}
use e_commerce_order_platfor.Kafka.{
  KafkaService, Cluster, Subscription, disconnect_all, close_producer, close_admin,
  on_module_destroy, publish,
}

pub disconnect_all-state :
    (cluster : Cluster) (consumers : List Subscription) (k : KafkaService)
    → (disconnect_all cluster consumers k).1 ≡ k
disconnect_all-state cluster [] k = refl
disconnect_all-state cluster (s ∷ consumers) k =
    elim (Result-cases (cluster.consumer_disconnects s)) [
      | inl (u, e) ↦ rw e (disconnect_all-state cluster consumers k)
      | inr (x, e) ↦ rw e refl
    ]

close_admin-producer :
    (cluster : Cluster) (b : Bool) (k : KafkaService)
    → (close_admin cluster b k).1.producer ≡ k.producer
close_admin-producer cluster false k = refl
close_admin-producer cluster true k = elim (Result-cases cluster.admin_disconnects) [
  | inl (u, e) ↦ rw e refl
  | inr (x, e) ↦ rw e refl
]

close_producer-producer :
    (cluster : Cluster) (b : Bool) (k : KafkaService)
    → k.producer ≡ b
    → (close_producer cluster b k).0 ≡ ok tt
    → (close_producer cluster b k).1.producer ≡ false
close_producer-producer cluster false k is_b closed = is_b
close_producer-producer cluster true k is_b closed =
    elim (Result-cases cluster.producer_disconnects) [
      | inl (u, e) ↦ rw e refl
      | inr (x, e) ↦ absurd (ground arith)
    ]

destroy-producer :
    (cluster : Cluster) (k : KafkaService)
    → (on_module_destroy cluster k).0 ≡ ok tt
    → (on_module_destroy cluster k).1.producer ≡ false
unfolding on_module_destroy
destroy-producer cluster k closed =
    let same = disconnect_all-state cluster k.consumers k in
    let k1 : KafkaService = record k { consumers = [] } in
    let (r, k2) = close_producer cluster k1.producer k1 in
    elim (Result-cases (disconnect_all cluster k.consumers k).0) [
      | inr (x, e) ↦ absurd (ground arith)
      | inl (u, e) ↦ elim (Result-cases (close_producer cluster k1.producer k1).0) [
        | inr (x, p) ↦ absurd (ground (arith, same))
        | inl (v, p) ↦
            rw (e, same, p)
              (close_admin-producer cluster k2.admin k2
                ∙ close_producer-producer cluster k1.producer k1 refl p)
      ]
    ]

-- After a stop that succeeded, a publication is dropped: it answers without an error, whatever the cluster
-- answers, and no record is added.
publish-after_destroy :
    (cluster later : Cluster) (topic key value : String) (k : KafkaService)
    → (on_module_destroy cluster k).0 ≡ ok tt
    → let stopped = (on_module_destroy cluster k).1 in
      publish later topic key value stopped ≡ (ok tt, stopped)
unfolding publish
publish-after_destroy cluster later topic key value k closed =
    let gone = destroy-producer cluster k closed in ground arith
