-- ===== src/Outbox/Relay/Delivery.antt =====
-- The messages that the relay (src/outbox/outbox-relay.service.ts) hands to RabbitMQ while the brokers work.
use e_commerce_order_platfor.Common.{
  ◌≤◌, ◌≡◌, refl, ap, sym, subst, ◌∙◌, inl, inr, ◌⊎◌, true, none, some, List, [], ◌∷◌, ◌++◌,
  append_assoc, length, arith, Bool-cases, find, any, All, Distinct,
}
use e_commerce_order_platfor.Database.{OutboxEvent, order_process_requested, Payload, Database}
use e_commerce_order_platfor.Outbox.Service.{event_has_id, OutboxConfig}
use e_commerce_order_platfor.Outbox.Claim.{same_event, batch_size, claim_batch_lem}
use e_commerce_order_platfor.Outbox.Relay.{RelayEnv, Relay, Sent, to_process, relay_tick}
use e_commerce_order_platfor.Outbox.Relay.Batch.{failure, messages, all_messages}
use e_commerce_order_platfor.Outbox.Relay.Ticks.{
  settle, tick_batch, relay_tick_lem, relay_tick_runs,
}
use e_commerce_order_platfor.Outbox.Relay.Bounds.{Open, find-map-settle}
use e_commerce_order_platfor.Outbox.Relay.Sending.{ticks, is_outstanding, AllSend}
use e_commerce_order_platfor.Outbox.Relay.Drain.{
  Sendable, outstanding, tick-Sendable, tick_sends, All-found, none_left,
}

-- The message is among those that were sent to the brokers.
abbrev pub IsHeld : Sent → List Sent → Type 0
IsHeld m ms = (pre : List Sent) × (post : List Sent) × (ms ≡ pre ++ m ∷ post)

IsHeld-append : (m : Sent) (xs ys : List Sent) → IsHeld m xs → IsHeld m (xs ++ ys)
IsHeld-append m xs ys (pre, post, e) =
    (pre, post ++ ys, ap (λ zs. zs ++ ys) e ∙ append_assoc pre (m ∷ post) ys)

IsHeld-after : (m : Sent) (xs ys : List Sent) → IsHeld m ys → IsHeld m (xs ++ ys)
IsHeld-after m xs ys (pre, post, e) =
    (xs ++ pre, post, ap (λ zs. xs ++ zs) e ∙ sym (append_assoc xs pre (m ∷ post)))

-- An event of a batch that can be published is published.
batch-IsHeld :
    (env : RelayEnv) (t batch : List OutboxEvent) (x : OutboxEvent)
    → All (λ e. (find (event_has_id e.id) t ≡ some e) × Open env e) batch
    → find (event_has_id x.id) t ≡ some x
    → any (event_has_id x.id) batch ≡ true
    → x.event_type ≡ order_process_requested
    → failure env x ≡ none
    → IsHeld (to_process x.payload) (all_messages env batch)
batch-IsHeld env t [] x h e a ty works = absurd (cc)
batch-IsHeld env t (b ∷ batch) x h e a ty works = elim (Bool-cases (event_has_id x.id b)) [
  | inl hit ↦
      let same_id : b.id ≡ x.id = ground arith in
      let same : b ≡ x = ground (arith, h.0, ap (λ k. find (event_has_id k) t) same_id) in
      (
        [],
        all_messages env batch,
        ap (λ y. messages env y ++ all_messages env batch) same ∙ rw (works, ty) refl,
      )
  | inr miss ↦
      IsHeld-after (to_process x.payload) (messages env b) (all_messages env batch)
        (batch-IsHeld env t batch x h.1 e (ground arith) ty works)
]

-- A tick changes no table but the outbox.
abbrev pub with_events : List OutboxEvent → Database → Database
with_events es d = record d { outbox_events = es }

pub ticks_keep :
    (envs : List RelayEnv) (r : Relay)
    → (ticks envs r).db ≡ with_events (ticks envs r).db.outbox_events r.db
ticks_keep [] r = refl
ticks_keep (env ∷ envs) r =
    ticks_keep envs (relay_tick env r).1
    ∙ ap (λ d. with_events (ticks envs (relay_tick env r).1).db.outbox_events d)
        (ap (λ q. q.1.db) (relay_tick_runs env r))

-- A tick that can publish an event keeps what the event says.
record SameEvent (x y : OutboxEvent) : Type 0 where
  id : y.id ≡ x.id
  event_type : y.event_type ≡ x.event_type
  payload : y.payload ≡ x.payload

settle-SameEvent :
    (env : RelayEnv) (batch : List OutboxEvent) (x : OutboxEvent)
    → failure env x ≡ none
    → SameEvent x (settle env batch x)
settle-SameEvent env batch x h = elim (Bool-cases (any (event_has_id x.id) batch)) [
  | inl hit ↦ rw (hit, h) (record { id = refl; event_type = refl; payload = refl })
  | inr miss ↦ rw miss (record { id = refl; event_type = refl; payload = refl })
]

abbrev HeldOrWaiting : OutboxConfig → Relay → Payload → OutboxEvent → Type 0
HeldOrWaiting config r p e = IsHeld (to_process p) r.sent ⊎ (is_outstanding config e ≡ true)

tick-HeldOrWaiting :
    (config : OutboxConfig) (env : RelayEnv) (r : Relay) (e : OutboxEvent)
    → Distinct same_event r.db.outbox_events
    → find (event_has_id e.id) r.db.outbox_events ≡ some e
    → e.event_type ≡ order_process_requested
    → failure env e ≡ none
    → HeldOrWaiting config r e.payload e
    → HeldOrWaiting config (relay_tick env r).1 e.payload (settle env (tick_batch env r.db) e)
tick-HeldOrWaiting config env r e ids found ty works state =
    let batch = tick_batch env r.db in
    let rows = (claim_batch_lem env.config env.locked env.now r.db ids).0 in
    let m = to_process e.payload in
    rw (relay_tick_lem env r ids) (elim state [
      | inl held ↦ inl (IsHeld-append m r.sent (all_messages env batch) held)
      | inr waiting ↦ elim (Bool-cases (any (event_has_id e.id) batch)) [
        | inl hit ↦ inl (
            IsHeld-after m r.sent (all_messages env batch)
              (batch-IsHeld env r.db.outbox_events batch e rows found hit ty works))
        | inr miss ↦ rw miss (inr waiting)
      ]
    ])

-- An event that asks for an order to be processed reaches the broker, under the conditions of
-- `outbox_drains`.
pub ticks_deliver :
    (config : OutboxConfig) (envs : List RelayEnv) (r : Relay) (e : OutboxEvent)
    → 1 ≤ batch_size config
    → Sendable config envs r.db.outbox_events
    → outstanding config r.db.outbox_events ≤ length envs
    → find (event_has_id e.id) r.db.outbox_events ≡ some e
    → e.event_type ≡ order_process_requested
    → HeldOrWaiting config r e.payload e
    → IsHeld (to_process e.payload) (ticks envs r).sent
ticks_deliver config [] r e some_size h bound found ty (inl held) = held
ticks_deliver config [] r e some_size h bound found ty (inr waiting) =
    let gone =
      none_left (is_outstanding config) (event_has_id e.id) r.db.outbox_events e bound found in
    absurd (cc)
ticks_deliver config (env ∷ envs) r e some_size h bound found ty state =
    let t = r.db.outbox_events in
    let batch = tick_batch env r.db in
    let works = (All-found (AllSend (env ∷ envs)) (event_has_id e.id) t e h.can found).0.2 in
    let e' = settle env batch e in
    let same = settle-SameEvent env batch e works in
    let moved : find (event_has_id e.id) (relay_tick env r).1.db.outbox_events ≡ some e' =
      rw (relay_tick_lem env r h.ids) (find-map-settle env batch e.id t e found) in
    let found' =
      subst (λ k. find (event_has_id k) (relay_tick env r).1.db.outbox_events ≡ some e')
        (sym same.id) moved in
    let state' = tick-HeldOrWaiting config env r e h.ids found ty works state in
    subst (λ p. IsHeld (to_process p) (ticks envs (relay_tick env r).1).sent) same.payload
      (ticks_deliver config envs (relay_tick env r).1 e' some_size
        (tick-Sendable config env envs r h)
        (tick_sends config env envs r (length envs) some_size h bound) found' (same.event_type ∙ ty)
        (subst (λ p. HeldOrWaiting config (relay_tick env r).1 p e') (sym same.payload) state'))
