-- ===== src/Orders/Processor/Once.antt =====
-- Each message is processed at most once, over any sequence of deliveries to the worker of
-- src/orders/orders-processor.consumer.ts.
use e_commerce_order_platfor.Common.{
  ℕ, ◌≡◌, refl, inl, inr, ◌⊎◌, Bool, true, false, Option, none, some, List, [], ◌∷◌, ok, arith,
  Option-cases, Bool-cases, any, any-append, ◌∙◌, find, ◌==◌, Distinct, Distinct-append_new,
  find-update_where,
}
use e_commerce_order_platfor.Database.{Uuid, Order, OrdersProcessMessage, ProcessedMessage}
use e_commerce_order_platfor.Rabbitmq.{Content}
use e_commerce_order_platfor.Orders.Processor.{
  ProcessorEnv, duplicate, has_message, has_id, as_processed, Worker, parse_message, on_message,
  process_order, new_processed,
}
use e_commerce_order_platfor.Orders.Processor.Transaction.{
  processing-cases, processed_db, process_order_lem,
}

-- A message, and what surrounds its delivery.
abbrev pub Delivery : Type 0
Delivery = ProcessorEnv × Option Content

-- A sequence of deliveries.
abbrev pub deliver_all : List Delivery → Worker → Worker
deliver_all [] w = w
deliver_all ((env, content) ∷ ds) w = deliver_all ds (on_message env content w)

abbrev pub same_message : ProcessedMessage → ProcessedMessage → Bool
same_message a b = b.message_id == a.message_id

same_message_swap : (a b : ProcessedMessage) → same_message a b ≡ same_message b a
same_message_swap a b = ground arith

-- What a delivery does to the committed tables.
on_message_db :
    (env : ProcessorEnv) (content : Option Content) (w : Worker)
    → let d = w.session.db in
      let d' = (on_message env content w).session.db in
      (d' ≡ d)
      ⊎ ((m : OrdersProcessMessage) × (any (has_message m.message_id) d.processed_messages ≡ false)
          × (d' ≡ processed_db env m d))
unfolding on_message
on_message_db env none w = inl refl
on_message_db env (some content) w = elim (Option-cases (parse_message content)) [
  | inl refused ↦ inl (rw refused refl)
  | inr (m, parsed) ↦
      let run = process_order_lem env m w.session in
      elim (processing-cases env m w.session.db) [
        | inl (seen, e) ↦ inl (rw (parsed, run, e) (ground arith))
        | inr (inl (new, e)) ↦ inr (m, new, rw (parsed, run, e) (ground arith))
        | inr (inr (error, new, e)) ↦ inl (rw (parsed, run, e) (ground arith))
      ]
]

-- An order is as it was, or it was marked as processed at one time.
abbrev pub Advances : Order → Order → Type 0
Advances o o' = (o' ≡ o) ⊎ ((t : ℕ) × (o' ≡ as_processed t o))

Advances-trans : (a b c : Order) → Advances a b → Advances b c → Advances a c
Advances-trans a b c (inl e) k = rw (← e) k
Advances-trans a b c (inr (t, e)) (inl f) = inr (t, f ∙ e)
Advances-trans a b c (inr (t, e)) (inr (t', f)) = inr (t, rw (f, e) refl)

on_message_order :
    (env : ProcessorEnv) (content : Option Content) (w : Worker) (k : Uuid) (o : Order)
    → find (has_id k) w.session.db.orders ≡ some o
    → (o' : Order) × (find (has_id k) (on_message env content w).session.db.orders ≡ some o')
      × Advances o o'
on_message_order env content w k o here = elim (on_message_db env content w) [
  | inl same ↦ (o, rw same here, inl refl)
  | inr (m, new, marked) ↦
      let moved =
        find-update_where (has_id k) (has_id m.order_id) (as_processed env.now) (λ x. refl)
          w.session.db.orders in
      elim (Bool-cases (has_id m.order_id o)) [
        | inl hit ↦
            (as_processed env.now o, rw (marked, moved, here) (ground arith), inr (env.now, refl))
        | inr miss ↦ (o, rw (marked, moved, here) (ground arith), inl refl)
      ]
]

on_message_recorded :
    (env : ProcessorEnv) (content : Option Content) (w : Worker) (i : Uuid)
    → any (has_message i) w.session.db.processed_messages ≡ true
    → any (has_message i) (on_message env content w).session.db.processed_messages ≡ true
on_message_recorded env content w i seen = elim (on_message_db env content w) [
  | inl same ↦ rw same seen
  | inr (m, new, marked) ↦
      rw marked
        (any-append (has_message i) w.session.db.processed_messages (new_processed env m ∷ []) seen)
]

on_message-Distinct :
    (env : ProcessorEnv) (content : Option Content) (w : Worker)
    → Distinct same_message w.session.db.processed_messages
    → Distinct same_message (on_message env content w).session.db.processed_messages
on_message-Distinct env content w h = elim (on_message_db env content w) [
  | inl same ↦ rw same h
  | inr (m, new, marked) ↦ rw marked (
      Distinct-append_new same_message same_message_swap (new_processed env m)
        w.session.db.processed_messages new h)
]

-- Over any deliveries, an order stays as it was or is marked as processed at one time: no other field of
-- it changes, and its time of processing, once set, stays.
deliver_all_order :
    (ds : List Delivery) (w : Worker) (k : Uuid) (o : Order)
    → find (has_id k) w.session.db.orders ≡ some o
    → (o' : Order) × (find (has_id k) (deliver_all ds w).session.db.orders ≡ some o')
      × Advances o o'
deliver_all_order [] w k o here = (o, here, inl refl)
deliver_all_order ((env, content) ∷ ds) w k o here =
    let (o1, here1, first) = on_message_order env content w k o here in
    let (o2, here2, rest) = deliver_all_order ds (on_message env content w) k o1 here1 in
    (o2, here2, Advances-trans o o1 o2 first rest)

-- Over any deliveries, no two rows of the record of processed messages are for one message, where this
-- holds before.
deliver_all-Distinct :
    (ds : List Delivery) (w : Worker)
    → Distinct same_message w.session.db.processed_messages
    → Distinct same_message (deliver_all ds w).session.db.processed_messages
deliver_all-Distinct [] w h = h
deliver_all-Distinct ((env, content) ∷ ds) w h =
    deliver_all-Distinct ds (on_message env content w) (on_message-Distinct env content w h)

deliver_all_recorded :
    (ds : List Delivery) (w : Worker) (i : Uuid)
    → any (has_message i) w.session.db.processed_messages ≡ true
    → any (has_message i) (deliver_all ds w).session.db.processed_messages ≡ true
deliver_all_recorded [] w i seen = seen
deliver_all_recorded ((env, content) ∷ ds) w i seen =
    deliver_all_recorded ds (on_message env content w) i (on_message_recorded env content w i seen)

-- A message that is recorded as processed stays so over any deliveries, and one more delivery of it, by
-- whatever number of attempt, finds it a duplicate and commits nothing.
pub processed_once :
    (ds : List Delivery) (env : ProcessorEnv) (m : OrdersProcessMessage) (w : Worker)
    → any (has_message m.message_id) w.session.db.processed_messages ≡ true
    → let s = (deliver_all ds w).session in
      process_order env m s ≡ (ok duplicate, record s { tx = none })
processed_once ds env m w seen =
    let s = (deliver_all ds w).session in
    let still = deliver_all_recorded ds w m.message_id seen in
    rw (process_order_lem env m s) (ground arith)
