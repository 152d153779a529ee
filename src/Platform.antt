-- ===== src/Platform.antt =====
-- The parts of the platform together: `create` of src/orders/orders.service.ts writes the outbox, the relay
-- of src/outbox/outbox-relay.service.ts sends it, and the consumer of
-- src/orders/orders-processor.consumer.ts takes the message.
mod Tests
use e_commerce_order_platfor.Common.{
  ⊤, ℕ, ◌≤◌, ◌≡◌, refl, ap, sym, subst, ◌∙◌, Bool, true, false, Option, none, some, List, [], ◌∷◌,
  ◌++◌, length, select, find, any, All, Distinct, ok, arith, any-find, find_holds, find-append_none,
  find-append_some, find-updated, update_where, inl, inr, ltb, ◌==◌, or_default,
}
use e_commerce_order_platfor.Database.{
  Uuid, Order, EOrderStatus, OrdersProcessMessage, OutboxEvent, Database, Session,
  order_process_requested, order_placed, process_message, order_event,
}
use e_commerce_order_platfor.Runtime.{App}
use e_commerce_order_platfor.Rabbitmq.{Queues, content_of}
use e_commerce_order_platfor.Outbox.Service.{new_event, event_has_id, OutboxConfig}
use e_commerce_order_platfor.Outbox.Claim.{same_event, batch_size, attempts_bound}
use e_commerce_order_platfor.Outbox.Relay.{RelayEnv, Relay, Sent, to_process}
use e_commerce_order_platfor.Outbox.Relay.Sending.{ticks, is_outstanding, AllSend, HasConfig}
use e_commerce_order_platfor.Outbox.Relay.Drain.{outstanding, Sendable}
use e_commerce_order_platfor.Outbox.Relay.Delivery.{IsHeld, ticks_keep, ticks_deliver}
use e_commerce_order_platfor.Orders.Create.Steps.{
  Env, CreateOrderDto, Created, is_order, item_of, new_order,
}
use e_commerce_order_platfor.Orders.Create.Flow.{create, process_request, placed_event}
use e_commerce_order_platfor.Orders.Create.Parts.{Placed-Parts, with_totals}
use e_commerce_order_platfor.Orders.Create.Totals.{created_lem, find_new_order, same_some}
use e_commerce_order_platfor.Orders.Processor.{
  ProcessorEnv, Worker, Settlement, acked, has_message, has_id, as_processed, on_message,
  process_order,
}
use e_commerce_order_platfor.Orders.Processor.Transaction.{processed_db, process_order_lem}

-- The message that `create` puts in the outbox, and its row.
abbrev pub message_of : Env → CreateOrderDto → Uuid → OrdersProcessMessage
message_of env dto key = process_request env (new_order env dto key)

abbrev pub request_event : Env → CreateOrderDto → Uuid → OutboxEvent
request_event env dto key =
    new_event env.process_row_id env.now "order" env.order_id order_process_requested
      (process_message (message_of env dto key))

abbrev pub worker_on : Database → Queues → List Settlement → Worker
worker_on d queues settled = record {
  session = record { db = d; tx = none; stranded = 0 };
  queues = queues;
  settled = settled;
}

process_new :
    (env : ProcessorEnv) (m : OrdersProcessMessage) (d : Database) (o : Order) (queues : Queues)
    (settled : List Settlement)
    → env.update_fails ≡ none
    → m.simulate ≡ false
    → any (has_message m.message_id) d.processed_messages ≡ false
    → find (has_id m.order_id) d.orders ≡ some o
    → on_message env (some (content_of m)) (worker_on d queues settled)
      ≡ worker_on (processed_db env m d) queues (settled ++ acked ∷ [])
unfolding on_message
process_new env m d o queues settled fine works fresh found =
    let there = any-find (has_id m.order_id) d.orders o found in
    rw
      (
        process_order_lem env m (record { db = d; tx = none; stranded = 0 }),
        fresh,
        there,
        works,
        fine,
      )
      refl

find-others :
    (i k : Uuid) (now : ℕ) (os : List Order)
    → (k == i) ≡ false
    → find (has_id k) (update_where (has_id i) (as_processed now) os) ≡ find (has_id k) os
find-others i k now [] apart = refl
find-others i k now (o ∷ os) apart = ground (arith, find-others i k now os apart)

-- What a call of `create` that made an order leaves for the relay and the consumer.
record Handed (env : Env) (dto : CreateOrderDto) (key : Uuid) (w : App) (o : Order) (d' : Database)
    : Type 0 where
  event : find (event_has_id env.process_row_id) d'.outbox_events ≡ some (request_event env dto key)
  order : find (has_id env.order_id) d'.orders ≡ some o
  unmarked : o.processed_at ≡ none
  unprocessed : d'.processed_messages ≡ w.session.db.processed_messages

create-Handed :
    (env : Env) (dto : CreateOrderDto) (key : Uuid) (w : App) (c : Created)
    → find (event_has_id env.process_row_id) w.session.db.outbox_events ≡ none
    → find (is_order env.order_id) w.session.db.orders ≡ none
    → (create env dto key w).0 ≡ ok c
    → c.created ≡ true
    → Handed env dto key w c.order (create env dto key w).1.session.db
create-Handed env dto key w c fresh fresh_order made new =
    let (total, placed, found, items) = created_lem env dto key w c made new in
    let d = w.session.db in
    let d' = (create env dto key w).1.session.db in
    let parts = Placed-Parts env dto key d d' total placed in
    let x = request_event env dto key in
    let y =
      new_event env.placed_row_id env.now "order" env.order_id order_placed
        (order_event (placed_event env dto (new_order env dto key) total)) in
    let p = event_has_id env.process_row_id in
    let mine : p x ≡ true = ground arith in
    let first : find p (d.outbox_events ++ x ∷ []) ≡ some x =
      find-append_none p d.outbox_events (x ∷ []) fresh ∙ rw mine refl in
    let f = with_totals (select (item_of env.order_id) d'.order_items) in
    let o = new_order env dto key in
    let by_id : find (is_order env.order_id) d'.orders ≡ some (f o) =
      rw (parts.orders) (find_new_order env.order_id f d.orders o (λ q. refl) refl fresh_order) in
    let same : c.order ≡ f o = same_some c.order (f o) (sym found ∙ by_id) in
    record {
      event = rw (parts.outbox) (find-append_some p (d.outbox_events ++ x ∷ []) (y ∷ []) x first);
      order = found;
      unmarked = ap (λ (q : Order). q.processed_at) same;
      unprocessed = parts.processed;
    }

-- From the request to the processed order. Where `create` made an order, under ids that are not used yet;
-- where the relay's ticks are at least as many as the events that are to be sent, with room in a batch and
-- for an attempt, and each can send what is in the outbox; and where the database does not refuse the
-- consumer's update: the message of the order was sent to the broker, and a consumer that gets it acknowledges it
-- and leaves this order with the status processed, processed at the time it had the message, its other columns
-- as `create` answered with them, and every other order as it was.
pub created_order_is_processed :
    (env : Env) (dto : CreateOrderDto) (key : Uuid) (w : App) (c : Created) (config : OutboxConfig)
    (relays : List RelayEnv) (sent : List Sent) (worker : ProcessorEnv) (queues : Queues)
    (settled : List Settlement) (other : Uuid)
    → find (event_has_id env.process_row_id) w.session.db.outbox_events ≡ none
    → find (is_order env.order_id) w.session.db.orders ≡ none
    → any (has_message env.message_id) w.session.db.processed_messages ≡ false
    → (create env dto key w).0 ≡ ok c
    → c.created ≡ true
    → 1 ≤ batch_size config
    → 1 ≤ attempts_bound config
    → All (HasConfig config) relays
    → Distinct same_event (create env dto key w).1.session.db.outbox_events
    → All (AllSend relays) (create env dto key w).1.session.db.outbox_events
    → length (select (is_outstanding config) (create env dto key w).1.session.db.outbox_events)
      ≤ length relays
    → worker.update_fails ≡ none
    → (other == env.order_id) ≡ false
    → let r = ticks relays (record { db = (create env dto key w).1.session.db; sent = sent }) in
      let w' =
        on_message worker
          (some (content_of (message_of env dto key)))
          (worker_on r.db queues settled) in
      IsHeld (to_process (process_message (message_of env dto key))) r.sent
      × (find (has_id env.order_id) w'.session.db.orders
          ≡ some
              (record c.order { status = EOrderStatus.processed; processed_at = some worker.now }))
      × (find (has_id other) w'.session.db.orders
          ≡ find (has_id other) (create env dto key w).1.session.db.orders)
      × (w'.settled ≡ (settled ++ acked ∷ []))
created_order_is_processed env dto key w c config relays sent worker queues settled other fresh
      fresh_order unseen made new some_size room configs ids can bound fine apart =
    let d' = (create env dto key w).1.session.db in
    let handed = create-Handed env dto key w c fresh fresh_order made new in
    let r0 : Relay = record { db = d'; sent = sent } in
    let r = ticks relays r0 in
    let x = request_event env dto key in
    let waiting : is_outstanding config x ≡ true = ground arith in
    let m = message_of env dto key in
    let kept = ticks_keep relays r0 in
    let unseen' : any (has_message m.message_id) r.db.processed_messages ≡ false =
      ap (λ (q : Database). any (has_message m.message_id) q.processed_messages) kept
      ∙ ap (λ ps. any (has_message m.message_id) ps) handed.unprocessed
      ∙ unseen in
    let order' : find (has_id m.order_id) r.db.orders ≡ some c.order =
      ap (λ (q : Database). find (has_id m.order_id) q.orders) kept ∙ handed.order in
    let done = process_new worker m r.db c.order queues settled fine refl unseen' order' in
    let marked : find (has_id m.order_id)
          (update_where (has_id m.order_id) (as_processed worker.now) r.db.orders)
        ≡ some (as_processed worker.now c.order) =
      find-updated (has_id m.order_id) (as_processed worker.now) (λ q. refl) r.db.orders c.order
        order' in
    (
      ticks_deliver config relays r0 x some_size
          (record { configs = configs; ids = ids; can = can }) bound handed.event refl
          (inr waiting),
      ap (λ (q : Worker). find (has_id m.order_id) q.session.db.orders) done
          ∙ marked
          ∙ ap
              (λ t. some (record c.order {
                status = EOrderStatus.processed;
                processed_at = some (or_default t worker.now);
              }))
              handed.unmarked,
      ap (λ (q : Worker). find (has_id other) q.session.db.orders) done
          ∙ find-others m.order_id other worker.now r.db.orders apart
          ∙ ap (λ (q : Database). find (has_id other) q.orders) kept,
      ap (λ (q : Worker). q.settled) done,
    )
