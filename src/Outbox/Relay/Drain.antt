-- ===== src/Outbox/Relay/Drain.antt =====
-- The relay (src/outbox/outbox-relay.service.ts) while the brokers work: the events get sent.
use e_commerce_order_platfor.Common.{
  ℕ, suc, ◌≤◌, ◌≡◌, ap, sym, subst, ◌∙◌, min, inl, inr, ◌⊎◌, Bool, true, false, some, List, [], ◌∷◌,
  map, length, select, arith, Bool-cases, find, All, Distinct,
}
use e_commerce_order_platfor.Database.{OutboxEvent, EOutboxEventStatus}
use e_commerce_order_platfor.Outbox.Service.{event_has_id, OutboxConfig}
use e_commerce_order_platfor.Outbox.Claim.{same_event, batch_size, is_open, claim_batch_lem}
use e_commerce_order_platfor.Outbox.Relay.{RelayEnv, Relay, relay_tick}
use e_commerce_order_platfor.Outbox.Relay.Ticks.{settle, tick_batch, relay_tick_lem}
use e_commerce_order_platfor.Outbox.Relay.Bounds.{Open, settle_id, All-map}
use e_commerce_order_platfor.Outbox.Relay.Sending.{
  is_outstanding, AllSend, HasConfig, settle_sent, settle-AllSend, settle_fewer, length-select_le,
  length-select_lt, select-eq, open-outstanding, Distinct-map, All-with,
}

-- The state of the table that every tick keeps.
pub record Sendable (config : OutboxConfig) (envs : List RelayEnv) (t : List OutboxEvent)
    : Type 0 where
  pub configs : All (HasConfig config) envs
  pub ids : Distinct same_event t
  pub can : All (AllSend envs) t

abbrev pub outstanding : OutboxConfig → List OutboxEvent → ℕ
outstanding config t = length (select (is_outstanding config) t)

pub tick-Sendable :
    (config : OutboxConfig) (env : RelayEnv) (envs : List RelayEnv) (r : Relay)
    → Sendable config (env ∷ envs) r.db.outbox_events
    → Sendable config envs (relay_tick env r).1.db.outbox_events
tick-Sendable config env envs r h =
    let t = r.db.outbox_events in
    let f = settle env (tick_batch env r.db) in
    rw (relay_tick_lem env r h.ids) (record {
      configs = h.configs.1;
      ids = Distinct-map f (settle_id env (tick_batch env r.db)) t h.ids;
      can =
          All-map (AllSend (env ∷ envs)) (AllSend envs) f
            (λ x k. settle-AllSend env envs (tick_batch env r.db) x k.0.2 k.1) t h.can;
    })

pub All-found :
    (P : OutboxEvent → Type 0) (q : OutboxEvent → Bool) (t : List OutboxEvent) (e : OutboxEvent)
    → All P t
    → find q t ≡ some e
    → P e
All-found P q [] e h found = absurd (cc)
All-found P q (x ∷ t) e h found = elim (Bool-cases (q x)) [
  | inl hit ↦ subst P (ground arith) h.0
  | inr miss ↦ All-found P q t e h.1 (ground arith)
]

-- The first event of a batch is one that is no longer outstanding.
fewer_left :
    (config : OutboxConfig) (env : RelayEnv) (envs : List RelayEnv) (t batch : List OutboxEvent)
    (n : ℕ)
    → All (λ e. (find (event_has_id e.id) t ≡ some e) × Open env e) batch
    → All
        (λ x. is_outstanding config (settle env batch x) ≡ true → is_outstanding config x ≡ true)
        t
    → All (AllSend (env ∷ envs)) t
    → env.config ≡ config
    → length batch ≡ min (batch_size config) (outstanding config t)
    → 1 ≤ batch_size config
    → outstanding config t ≤ suc n
    → outstanding config (map (settle env batch) t) ≤ n
fewer_left config env envs t [] n rows fewer can same taken some_size bound =
    let less = length-select_le (is_outstanding config) (settle env []) t fewer in omega arith
fewer_left config env envs t (b ∷ bs) n rows fewer can same taken some_size bound =
    let batch = b ∷ bs in
    let (found, opened) = rows.0 in
    let sends = (All-found (AllSend (env ∷ envs)) (event_has_id b.id) t b can found).0 in
    let before : is_outstanding config b ≡ true =
      sym (open-outstanding config env b same sends) ∙ opened in
    let sent = settle_sent env batch b sends.2 (ground arith) in
    let after : is_outstanding config (settle env batch b) ≡ false = ground arith in
    let less =
      length-select_lt (is_outstanding config) (settle env batch) b.id b t fewer found before
        after in
    omega arith

pub tick_sends :
    (config : OutboxConfig) (env : RelayEnv) (envs : List RelayEnv) (r : Relay) (n : ℕ)
    → 1 ≤ batch_size config
    → Sendable config (env ∷ envs) r.db.outbox_events
    → outstanding config r.db.outbox_events ≤ suc n
    → outstanding config (relay_tick env r).1.db.outbox_events ≤ n
tick_sends config env envs r n some_size h bound =
    let t = r.db.outbox_events in
    let batch = tick_batch env r.db in
    let (rows, distinct, ordered, full) =
      claim_batch_lem env.config env.locked env.now r.db h.ids in
    let fewer =
      All-with (AllSend (env ∷ envs))
        (λ x. is_outstanding config (settle env batch x) ≡ true → is_outstanding config x ≡ true)
        (λ x k. settle_fewer config env batch x k.0.2) t h.can in
    let opens = select-eq (is_open env.config env.locked env.now) (is_outstanding config) t (
      All-with (AllSend (env ∷ envs))
        (λ x. is_open env.config env.locked env.now x ≡ is_outstanding config x)
        (λ x k. open-outstanding config env x h.configs.0 k.0) t h.can) in
    let taken : length batch ≡ min (batch_size config) (outstanding config t) =
      full
      ∙ ap (λ c. min (batch_size c) (length (select (is_open env.config env.locked env.now) t)))
          h.configs.0
      ∙ ap (λ xs. min (batch_size config) (length xs)) opens in
    rw (relay_tick_lem env r h.ids)
      (fewer_left config env envs t batch n rows fewer h.can h.configs.0 taken some_size bound)

pub none_left :
    (p q : OutboxEvent → Bool) (t : List OutboxEvent) (e : OutboxEvent)
    → length (select p t) ≤ 0
    → find q t ≡ some e
    → p e ≡ false
none_left p q [] e h found = absurd (cc)
none_left p q (x ∷ t) e h found = elim (Bool-cases (p x)) [
  | inl i ↦ absurd (ground arith)
  | inr i ↦ elim (Bool-cases (q x)) [
    | inl hit ↦ let same : x ≡ e = ground arith in ap p (sym same) ∙ i
    | inr miss ↦ none_left p q t e (ground arith) (ground arith)
  ]
]

abbrev SentOrWaiting : OutboxConfig → OutboxEvent → Type 0
SentOrWaiting config e = (e.status ≡ EOutboxEventStatus.sent) ⊎ (is_outstanding config e ≡ true)
