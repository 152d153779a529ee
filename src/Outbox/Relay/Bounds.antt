-- ===== src/Outbox/Relay/Bounds.antt =====
-- Which rows a tick of the relay (src/outbox/outbox-relay.service.ts) leaves alone, and how many
-- attempts it makes.
use e_commerce_order_platfor.Common.{
  ◌+◌, ◌≤◌, ◌≡◌, ap, inl, inr, true, false, some, List, [], ◌∷◌, map, arith, Option-cases,
  Bool-cases, find, any, All, Distinct,
}
use e_commerce_order_platfor.Database.{Uuid, OutboxEvent}
use e_commerce_order_platfor.Outbox.Service.{event_has_id}
use e_commerce_order_platfor.Outbox.Claim.{
  same_event, attempts_bound, is_open, claim_batch_lem, find_self, All-both,
}
use e_commerce_order_platfor.Outbox.Relay.{RelayEnv, Relay, relay_tick}
use e_commerce_order_platfor.Outbox.Relay.Batch.{failure}
use e_commerce_order_platfor.Outbox.Relay.Ticks.{settle, tick_batch, relay_tick_lem}

abbrev pub Open : RelayEnv → OutboxEvent → Type 0
Open env e = is_open env.config env.locked env.now e ≡ true

batch-Open :
    (env : RelayEnv) (t batch : List OutboxEvent) (x : OutboxEvent)
    → All (λ e. (find (event_has_id e.id) t ≡ some e) × Open env e) batch
    → find (event_has_id x.id) t ≡ some x
    → any (event_has_id x.id) batch ≡ true
    → Open env x
batch-Open env t [] x h e a = absurd (cc)
batch-Open env t (b ∷ batch) x h e a = elim (Bool-cases (event_has_id x.id b)) [
  | inl hit ↦
      let same_id : b.id ≡ x.id = ground arith in
      let same : b ≡ x = ground (arith, h.0, ap (λ k. find (event_has_id k) t) same_id) in
      rw (← same) h.0.1
  | inr miss ↦ batch-Open env t batch x h.1 e (ground arith)
]

pub settle_id :
    (env : RelayEnv) (batch : List OutboxEvent) (x : OutboxEvent) → (settle env batch x).id ≡ x.id
settle_id env batch x =
    ground (arith, Option-cases (failure env x), Bool-cases (any (event_has_id x.id) batch))

pub find-map-settle :
    (env : RelayEnv) (batch : List OutboxEvent) (k : Uuid) (t : List OutboxEvent) (x : OutboxEvent)
    → find (event_has_id k) t ≡ some x
    → find (event_has_id k) (map (settle env batch) t) ≡ some (settle env batch x)
find-map-settle env batch k [] x h = absurd (cc)
find-map-settle env batch k (y ∷ t) x h =
    let same = settle_id env batch y in
    elim (Bool-cases (event_has_id k y)) [
      | inl hit ↦ let found : y ≡ x = ground arith in ground (arith, same)
      | inr miss ↦
          let rest : find (event_has_id k) t ≡ some x = ground arith in
          ground (arith, same, find-map-settle env batch k t x rest)
    ]

-- Where the ids are distinct, an event that is sent, has used up its attempts, is not due yet, or is held
-- by another transaction is the same after a tick of the relay.
relay_tick_leaves :
    (env : RelayEnv) (r : Relay) (x : OutboxEvent)
    → Distinct same_event r.db.outbox_events
    → find (event_has_id x.id) r.db.outbox_events ≡ some x
    → is_open env.config env.locked env.now x ≡ false
    → find (event_has_id x.id) (relay_tick env r).1.db.outbox_events ≡ some x
relay_tick_leaves env r x ids here closed =
    let t = r.db.outbox_events in
    let batch = tick_batch env r.db in
    let rows = (claim_batch_lem env.config env.locked env.now r.db ids).0 in
    let moved = find-map-settle env batch x.id t x here in
    rw (relay_tick_lem env r ids) (elim (Bool-cases (any (event_has_id x.id) batch)) [
      | inl hit ↦ let opened = batch-Open env t batch x rows here hit in absurd (cc)
      | inr miss ↦ ground (arith, moved)
    ])

bounded_row :
    (env : RelayEnv) (batch : List OutboxEvent) (x : OutboxEvent)
    → x.attempts ≤ attempts_bound env.config
    → (any (event_has_id x.id) batch ≡ true → Open env x)
    → (settle env batch x).attempts ≤ attempts_bound env.config
bounded_row env batch x b h = elim (Bool-cases (any (event_has_id x.id) batch)) [
  | inl hit ↦
      let room : x.attempts + 1 ≤ attempts_bound env.config = ground (arith, h hit) in
      rw hit (ground (arith, Option-cases (failure env x)))
  | inr miss ↦ rw miss b
]

pub All-map :
    (P Q : OutboxEvent → Type 0) (f : OutboxEvent → OutboxEvent)
    → ((x : OutboxEvent) → P x → Q (f x))
    → (t : List OutboxEvent) → All P t
    → All Q (map f t)
All-map P Q f g [] h = tt
All-map P Q f g (x ∷ t) h = (g x h.0, All-map P Q f g t h.1)

-- Where the ids are distinct and no event has more attempts than the bound of the configuration, none has
-- more after a tick.
pub relay_tick_bounded :
    (env : RelayEnv) (r : Relay)
    → Distinct same_event r.db.outbox_events
    → All (λ e. e.attempts ≤ attempts_bound env.config) r.db.outbox_events
    → All (λ e. e.attempts ≤ attempts_bound env.config) (relay_tick env r).1.db.outbox_events
relay_tick_bounded env r ids bounds =
    let t = r.db.outbox_events in
    let batch = tick_batch env r.db in
    let bound = attempts_bound env.config in
    let rows = (claim_batch_lem env.config env.locked env.now r.db ids).0 in
    let Both = λ (x : OutboxEvent). (x.attempts ≤ bound) × (find (event_has_id x.id) t ≡ some x) in
    let both =
      All-both (λ x. x.attempts ≤ bound) (λ x. find (event_has_id x.id) t ≡ some x) Both
        (λ x b f. (b, f)) t bounds (find_self t ids) in
    rw (relay_tick_lem env r ids) (
      All-map Both (λ x. x.attempts ≤ bound) (settle env batch)
        (λ x h. bounded_row env batch x h.0 (batch-Open env t batch x rows h.1)) t both)
