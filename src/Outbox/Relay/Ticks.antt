-- ===== src/Outbox/Relay/Ticks.antt =====
-- The effect of a tick of the relay (src/outbox/outbox-relay.service.ts) on the whole table of events.
use e_commerce_order_platfor.Common.{
  ◌≡◌, refl, ap, ◌∙◌, inl, inr, true, false, Option, none, some, List, [], ◌∷◌, ◌++◌, map, ok,
  arith, Option-cases, Bool-cases, update_where, find, any, All, Distinct, if◌then◌else◌,
}
use e_commerce_order_platfor.Database.{OutboxEvent, Database}
use e_commerce_order_platfor.Outbox.Service.{event_has_id, claim_batch}
use e_commerce_order_platfor.Outbox.Claim.{same_event, claimed, is_open, claim_batch_lem, find_self}
use e_commerce_order_platfor.Outbox.Relay.{RelayEnv, Relay, relay_tick}
use e_commerce_order_platfor.Outbox.Relay.Batch.{
  failure, settle_row, settle_all, all_messages, relay_all_lem,
}

abbrev settle_found : RelayEnv → Option OutboxEvent → OutboxEvent → OutboxEvent
settle_found env none x = x
settle_found env (some e) x = settle_row env e x

abbrev settle_by : RelayEnv → List OutboxEvent → OutboxEvent → OutboxEvent
settle_by env es x = settle_found env (find (event_has_id x.id) es) x

settle_row_id : (env : RelayEnv) (e x : OutboxEvent) → (settle_row env e x).id ≡ x.id
settle_row_id env e x = ground (arith, Option-cases (failure env e))

find-absent :
    (x y : OutboxEvent) (es : List OutboxEvent)
    → All (λ z. same_event x z ≡ false) es
    → y.id ≡ x.id
    → find (event_has_id y.id) es ≡ none
find-absent x y [] h e = refl
find-absent x y (z ∷ es) h e = ground (arith, find-absent x y es h.1 e)

settle_step :
    (env : RelayEnv) (e : OutboxEvent) (es : List OutboxEvent) (x : OutboxEvent)
    → All (λ z. same_event e z ≡ false) es
    → settle_by env es (if event_has_id e.id x then settle_row env e x else x)
      ≡ settle_by env (e ∷ es) x
settle_step env e es x h = elim (Bool-cases (event_has_id e.id x)) [
  | inl hit ↦
      let same : x.id ≡ e.id = ground arith in
      let absent = find-absent e (settle_row env e x) es h (settle_row_id env e x ∙ same) in
      rw (hit, absent) (ground arith)
  | inr miss ↦ rw miss (ground arith)
]

settle_one :
    (env : RelayEnv) (e : OutboxEvent) (es t : List OutboxEvent)
    → All (λ z. same_event e z ≡ false) es
    → map (settle_by env es) (update_where (event_has_id e.id) (settle_row env e) t)
      ≡ map (settle_by env (e ∷ es)) t
settle_one env e es [] h = refl
settle_one env e es (x ∷ t) h = rw (settle_step env e es x h, settle_one env e es t h) refl

map-settle_nil : (env : RelayEnv) (t : List OutboxEvent) → t ≡ map (settle_by env []) t
map-settle_nil env [] = refl
map-settle_nil env (x ∷ t) = ap (λ u. x ∷ u) (map-settle_nil env t)

settle_all-map :
    (env : RelayEnv) (es t : List OutboxEvent)
    → Distinct same_event es
    → settle_all env es t ≡ map (settle_by env es) t
settle_all-map env [] t d = map-settle_nil env t
settle_all-map env (e ∷ es) t d =
    settle_all-map env es (update_where (event_has_id e.id) (settle_row env e) t) d.1
    ∙ settle_one env e es t d.0

-- A row after a tick whose batch is `batch`, by the row alone.
abbrev pub settle : RelayEnv → List OutboxEvent → OutboxEvent → OutboxEvent
settle env batch x = if any (event_has_id x.id) batch then settle_row env x x else x

-- Rows of a table, found by their ids in it and in a batch from it, are the same rows.
settle_by-settle :
    (env : RelayEnv) (t batch : List OutboxEvent) (x : OutboxEvent)
    → All (λ e. find (event_has_id e.id) t ≡ some e) batch
    → find (event_has_id x.id) t ≡ some x
    → settle_by env batch x ≡ settle env batch x
settle_by-settle env t [] x h e = refl
settle_by-settle env t (b ∷ batch) x h e = elim (Bool-cases (event_has_id x.id b)) [
  | inl hit ↦
      let same_id : b.id ≡ x.id = ground arith in
      let same : b ≡ x = ground (arith, h.0, ap (λ k. find (event_has_id k) t) same_id) in
      rw (hit, same) refl
  | inr miss ↦ rw miss (settle_by-settle env t batch x h.1 e)
]

map-eq-map :
    (f g : OutboxEvent → OutboxEvent) (t : List OutboxEvent)
    → All (λ x. f x ≡ g x) t
    → map f t ≡ map g t
map-eq-map f g [] h = refl
map-eq-map f g (x ∷ t) h = rw (h.0, map-eq-map f g t h.1) refl

All-imp :
    (P Q : OutboxEvent → Type 0)
    → ((x : OutboxEvent) → P x → Q x)
    → (xs : List OutboxEvent) → All P xs
    → All Q xs
All-imp P Q f [] h = tt
All-imp P Q f (x ∷ xs) h = (f x h.0, All-imp P Q f xs h.1)

abbrev pub tick_batch : RelayEnv → Database → List OutboxEvent
tick_batch env d = claimed env.config env.locked env.now d

pub relay_tick_runs :
    (env : RelayEnv) (r : Relay)
    → relay_tick env r ≡ (
      ok tt,
      record r {
        db = record r.db {
          outbox_events = settle_all env (tick_batch env r.db) r.db.outbox_events;
        };
        sent = r.sent ++ all_messages env (tick_batch env r.db);
      },
    )
unfolding relay_tick claim_batch
relay_tick_runs env r = relay_all_lem env (tick_batch env r.db) r

pub relay_tick_lem :
    (env : RelayEnv) (r : Relay)
    → Distinct same_event r.db.outbox_events
    → relay_tick env r ≡ (
      ok tt,
      record r {
        db = record r.db {
          outbox_events = map (settle env (tick_batch env r.db)) r.db.outbox_events;
        };
        sent = r.sent ++ all_messages env (tick_batch env r.db);
      },
    )
relay_tick_lem env r ids =
    let t = r.db.outbox_events in
    let batch = tick_batch env r.db in
    let (rows, distinct, ordered, full) = claim_batch_lem env.config env.locked env.now r.db ids in
    let found =
      All-imp
        (λ e.
          (find (event_has_id e.id) t ≡ some e) × (is_open env.config env.locked env.now e ≡ true))
        (λ e. find (event_has_id e.id) t ≡ some e) (λ e h. h.0) batch rows in
    let pointwise =
      All-imp (λ x. find (event_has_id x.id) t ≡ some x)
        (λ x. settle_by env batch x ≡ settle env batch x)
        (λ x. settle_by-settle env t batch x found) t (find_self t ids) in
    rw
      (
        relay_tick_runs env r,
        settle_all-map env batch t distinct,
        map-eq-map (settle_by env batch) (settle env batch) t pointwise,
      )
      refl
