-- ===== src/Outbox/Relay/Sending.antt =====
-- What the relay (src/outbox/outbox-relay.service.ts) leaves in the outbox while the brokers work.
use e_commerce_order_platfor.Common.{
  ⊤, ℕ, ◌≤◌, ◌<◌, ◌≡◌, refl, ap, ◌∙◌, inl, inr, Bool, true, false, ◌&&◌, none, some, List, [], ◌∷◌,
  map, length, select, arith, Bool-cases, find, any, All, Distinct, ltb,
}
use e_commerce_order_platfor.Database.{Uuid, OutboxEvent, EOutboxEventStatus}
use e_commerce_order_platfor.Outbox.Service.{
  event_has_id, as_sent, OutboxConfig, is_due, is_waiting,
}
use e_commerce_order_platfor.Outbox.Claim.{same_event, attempts_bound, is_open}
use e_commerce_order_platfor.Outbox.Relay.{RelayEnv, Relay, relay_tick}
use e_commerce_order_platfor.Outbox.Relay.Batch.{failure}
use e_commerce_order_platfor.Outbox.Relay.Ticks.{settle}
use e_commerce_order_platfor.Outbox.Relay.Bounds.{All-map}

abbrev pub ticks : List RelayEnv → Relay → Relay
ticks [] r = r
ticks (env ∷ envs) r = ticks envs (relay_tick env r).1

-- Neither sent nor given up.
abbrev pub is_outstanding : OutboxConfig → OutboxEvent → Bool
is_outstanding config e = is_waiting e.status && ltb e.attempts (attempts_bound config)

-- What lets a tick send an event: it is due, no other transaction holds it, and its publication succeeds.
abbrev pub CanSend : RelayEnv → OutboxEvent → Type 0
CanSend env e =
    (is_due env.now e.next_retry_at ≡ true) × (env.locked e.id ≡ false) × (failure env e ≡ none)

abbrev pub AllSend : List RelayEnv → OutboxEvent → Type 0
AllSend [] e = ⊤
AllSend (env ∷ envs) e = CanSend env e × AllSend envs e

abbrev pub HasConfig : OutboxConfig → RelayEnv → Type 0
HasConfig config env = env.config ≡ config

pub settle_sent :
    (env : RelayEnv) (batch : List OutboxEvent) (x : OutboxEvent)
    → failure env x ≡ none
    → any (event_has_id x.id) batch ≡ true
    → (settle env batch x).status ≡ EOutboxEventStatus.sent
settle_sent env batch x h hit = rw (hit, h) refl

as_sent-AllSend :
    (now : ℕ) (envs : List RelayEnv) (x : OutboxEvent)
    → AllSend envs x
    → AllSend envs (as_sent now x)
as_sent-AllSend now [] x h = tt
as_sent-AllSend now (env ∷ envs) x (can, h) = (can, as_sent-AllSend now envs x h)

pub settle-AllSend :
    (env : RelayEnv) (envs : List RelayEnv) (batch : List OutboxEvent) (x : OutboxEvent)
    → failure env x ≡ none
    → AllSend envs x
    → AllSend envs (settle env batch x)
settle-AllSend env envs batch x h k = elim (Bool-cases (any (event_has_id x.id) batch)) [
  | inr miss ↦ rw miss k
  | inl hit ↦ rw (hit, h) (as_sent-AllSend env.now envs x k)
]

-- A batch takes from what is outstanding, so there is less of it.
pub settle_fewer :
    (config : OutboxConfig) (env : RelayEnv) (batch : List OutboxEvent) (x : OutboxEvent)
    → failure env x ≡ none
    → is_outstanding config (settle env batch x) ≡ true
    → is_outstanding config x ≡ true
settle_fewer config env batch x h k = elim (Bool-cases (any (event_has_id x.id) batch)) [
  | inr miss ↦ ground arith
  | inl hit ↦ absurd (ground (arith, settle_sent env batch x h hit))
]

module _ (p : OutboxEvent → Bool) (f : OutboxEvent → OutboxEvent) where
  pub length-select_le :
      (t : List OutboxEvent)
      → All (λ x. p (f x) ≡ true → p x ≡ true) t
      → length (select p (map f t)) ≤ length (select p t)
  length-select_le [] h = omega arith
  length-select_le (x ∷ t) h = elim (Bool-cases (p (f x))) [
    | inl e ↦ rw (e, h.0 e) (omega (arith, length-select_le t h.1))
    | inr e ↦ ground (arith, length-select_le t h.1)
  ]

  pub length-select_lt :
      (k : Uuid) (e : OutboxEvent) (t : List OutboxEvent)
      → All (λ x. p (f x) ≡ true → p x ≡ true) t
      → find (event_has_id k) t ≡ some e
      → p e ≡ true
      → p (f e) ≡ false
      → length (select p (map f t)) < length (select p t)
  length-select_lt k e [] h found q r = absurd (cc)
  length-select_lt k e (x ∷ t) h found q r = elim (Bool-cases (event_has_id k x)) [
    | inl hit ↦
        let same : x ≡ e = ground arith in
        let before : p x ≡ true = ap p same ∙ q in
        let after : p (f x) ≡ false = ap (λ y. p (f y)) same ∙ r in
        rw (before, after) (omega (arith, length-select_le t h.1))
    | inr miss ↦
        let rest = length-select_lt k e t h.1 (ground arith) q r in
        elim (Bool-cases (p (f x))) [ inl i ↦ rw (i, h.0 i) (omega arith) | inr i ↦ ground arith ]
  ]

pub select-eq :
    (p q : OutboxEvent → Bool) (t : List OutboxEvent)
    → All (λ x. p x ≡ q x) t
    → select p t ≡ select q t
select-eq p q [] h = refl
select-eq p q (x ∷ t) h = rw (h.0, select-eq p q t h.1) refl

pub open-outstanding :
    (config : OutboxConfig) (env : RelayEnv) (x : OutboxEvent)
    → env.config ≡ config
    → CanSend env x
    → is_open env.config env.locked env.now x ≡ is_outstanding config x
open-outstanding config env x same (due, free, works) = rw (← same, due, free) (ground arith)

pub Distinct-map :
    (f : OutboxEvent → OutboxEvent)
    → ((x : OutboxEvent) → (f x).id ≡ x.id)
    → (t : List OutboxEvent) → Distinct same_event t
    → Distinct same_event (map f t)
Distinct-map f h [] d = tt
Distinct-map f h (x ∷ t) d = (
  All-map (λ y. same_event x y ≡ false) (λ y. same_event (f x) y ≡ false) f (λ y e. rw (h x, h y) e)
      t d.0,
  Distinct-map f h t d.1,
)

pub All-with :
    (P Q : OutboxEvent → Type 0)
    → ((x : OutboxEvent) → P x → Q x)
    → (xs : List OutboxEvent) → All P xs
    → All Q xs
All-with P Q f [] h = tt
All-with P Q f (x ∷ xs) h = (f x h.0, All-with P Q f xs h.1)
