-- ===== src/Outbox/Claim.antt =====
-- What `claimBatch` of src/outbox/outbox.service.ts returns.
use e_commerce_order_platfor.Common.{
  ⊤, ℕ, zero, suc, ◌≤◌, ◌≡◌, refl, ap, ◌∙◌, min, inl, inr, Bool, true, false, ◌&&◌, not, none, some,
  List, [], ◌∷◌, length, Result, ok, err, arith, Bool-cases, find, All, Distinct, take, select,
  ◌==◌, leb, or_default,
}
use e_commerce_order_platfor.Database.{Uuid, OutboxEvent, Database}
use e_commerce_order_platfor.Outbox.Service.{
  event_has_id, claim_batch, is_claimable, insert_event, order_by_created_at, OutboxConfig,
}

-- The primary key of the table.
abbrev pub same_event : OutboxEvent → OutboxEvent → Bool
same_event x y = y.id == x.id

same_event_swap : (x y : OutboxEvent) → same_event x y ≡ same_event y x
same_event_swap x y = ground arith

-- The events of a claim, which always succeeds.
abbrev result_or_nil : Result (List OutboxEvent) → List OutboxEvent
result_or_nil (ok es) = es
result_or_nil (err e) = []

abbrev pub claimed : OutboxConfig → (Uuid → Bool) → ℕ → Database → List OutboxEvent
claimed config locked now d = result_or_nil (claim_batch config locked now none d).0

abbrev pub batch_size : OutboxConfig → ℕ
batch_size config = or_default config.outbox_relay_batch_size 50

abbrev pub attempts_bound : OutboxConfig → ℕ
attempts_bound config = or_default config.max_attempts 3

-- Oldest first.
abbrev pub IsOrdered : List OutboxEvent → Type 0
IsOrdered [] = ⊤
IsOrdered (x ∷ xs) = All (λ y. x.created_at ≤ y.created_at) xs × IsOrdered xs

module _ (P : OutboxEvent → Type 0) where
  All-select : (p : OutboxEvent → Bool) (xs : List OutboxEvent) → All P xs → All P (select p xs)
  All-select p [] h = tt
  All-select p (x ∷ xs) h = elim (Bool-cases (p x)) [
    | inl e ↦ rw e (h.0, All-select p xs h.1)
    | inr e ↦ rw e (All-select p xs h.1)
  ]

  All-insert_event :
      (x : OutboxEvent) (xs : List OutboxEvent) → P x → All P xs → All P (insert_event x xs)
  All-insert_event x [] px h = (px, tt)
  All-insert_event x (y ∷ xs) px h = elim (Bool-cases (leb x.created_at y.created_at)) [
    | inl e ↦ rw e (px, h)
    | inr e ↦ rw e (h.0, All-insert_event x xs px h.1)
  ]

  All-order_by : (xs : List OutboxEvent) → All P xs → All P (order_by_created_at xs)
  All-order_by [] h = tt
  All-order_by (x ∷ xs) h = All-insert_event x (order_by_created_at xs) h.0 (All-order_by xs h.1)

  All-take : (n : ℕ) (xs : List OutboxEvent) → All P xs → All P (take n xs)
  All-take zero xs h = tt
  All-take (suc n) [] h = tt
  All-take (suc n) (x ∷ xs) h = (h.0, All-take n xs h.1)

pub All-both :
    (P Q R : OutboxEvent → Type 0)
    → ((x : OutboxEvent) → P x → Q x → R x)
    → (xs : List OutboxEvent) → All P xs
    → All Q xs
    → All R xs
All-both P Q R f [] h k = tt
All-both P Q R f (x ∷ xs) h k = (f x h.0 k.0, All-both P Q R f xs h.1 k.1)

Distinct-select :
    (p : OutboxEvent → Bool) (xs : List OutboxEvent)
    → Distinct same_event xs
    → Distinct same_event (select p xs)
Distinct-select p [] d = tt
Distinct-select p (x ∷ xs) d = elim (Bool-cases (p x)) [
  | inl e ↦ rw e (All-select (λ y. same_event x y ≡ false) p xs d.0, Distinct-select p xs d.1)
  | inr e ↦ rw e (Distinct-select p xs d.1)
]

Distinct-insert_event :
    (x : OutboxEvent) (xs : List OutboxEvent)
    → All (λ y. same_event x y ≡ false) xs
    → Distinct same_event xs
    → Distinct same_event (insert_event x xs)
Distinct-insert_event x [] h d = (tt, tt)
Distinct-insert_event x (y ∷ xs) h d = elim (Bool-cases (leb x.created_at y.created_at)) [
  | inl e ↦ rw e (h, d)
  | inr e ↦ rw e (
    All-insert_event (λ z. same_event y z ≡ false) x xs (same_event_swap y x ∙ h.0) d.0,
    Distinct-insert_event x xs h.1 d.1,
  )
]

Distinct-order_by :
    (xs : List OutboxEvent) → Distinct same_event xs → Distinct same_event (order_by_created_at xs)
Distinct-order_by [] d = tt
Distinct-order_by (x ∷ xs) d =
    Distinct-insert_event x (order_by_created_at xs)
      (All-order_by (λ y. same_event x y ≡ false) xs d.0) (Distinct-order_by xs d.1)

Distinct-take :
    (n : ℕ) (xs : List OutboxEvent) → Distinct same_event xs → Distinct same_event (take n xs)
Distinct-take zero xs d = tt
Distinct-take (suc n) [] d = tt
Distinct-take (suc n) (x ∷ xs) d =
    (All-take (λ y. same_event x y ≡ false) n xs d.0, Distinct-take n xs d.1)

older :
    (x y : OutboxEvent) (xs : List OutboxEvent)
    → x.created_at ≤ y.created_at
    → All (λ z. y.created_at ≤ z.created_at) xs
    → All (λ z. x.created_at ≤ z.created_at) xs
older x y [] e h = tt
older x y (z ∷ xs) e h = (omega (arith, h.0), older x y xs e h.1)

insert_event-IsOrdered :
    (x : OutboxEvent) (xs : List OutboxEvent) → IsOrdered xs → IsOrdered (insert_event x xs)
insert_event-IsOrdered x [] o = (tt, tt)
insert_event-IsOrdered x (y ∷ xs) o = elim (Bool-cases (leb x.created_at y.created_at)) [
  | inl e ↦
      let first : x.created_at ≤ y.created_at = ground arith in
      rw e ((first, older x y xs first o.0), o)
  | inr e ↦ rw e (
    All-insert_event (λ z. y.created_at ≤ z.created_at) x xs (ground arith) o.0,
    insert_event-IsOrdered x xs o.1,
  )
]

order_by-IsOrdered : (xs : List OutboxEvent) → IsOrdered (order_by_created_at xs)
order_by-IsOrdered [] = tt
order_by-IsOrdered (x ∷ xs) =
    insert_event-IsOrdered x (order_by_created_at xs) (order_by-IsOrdered xs)

take-IsOrdered : (n : ℕ) (xs : List OutboxEvent) → IsOrdered xs → IsOrdered (take n xs)
take-IsOrdered zero xs o = tt
take-IsOrdered (suc n) [] o = tt
take-IsOrdered (suc n) (x ∷ xs) o =
    (All-take (λ z. x.created_at ≤ z.created_at) n xs o.0, take-IsOrdered n xs o.1)

length-insert_event :
    (x : OutboxEvent) (xs : List OutboxEvent) → length (insert_event x xs) ≡ suc (length xs)
length-insert_event x [] = refl
length-insert_event x (y ∷ xs) = ground (arith, length-insert_event x xs)

length-order_by : (xs : List OutboxEvent) → length (order_by_created_at xs) ≡ length xs
length-order_by [] = refl
length-order_by (x ∷ xs) =
    length-insert_event x (order_by_created_at xs) ∙ ap suc (length-order_by xs)

length-take : (n : ℕ) (xs : List OutboxEvent) → length (take n xs) ≡ min n (length xs)
length-take zero xs = omega arith
length-take (suc n) [] = omega arith
length-take (suc n) (x ∷ xs) = omega (arith, length-take n xs)

-- In a table whose ids are distinct, each row is the one that its id finds.
pub find_self :
    (t : List OutboxEvent)
    → Distinct same_event t
    → All (λ e. find (event_has_id e.id) t ≡ some e) t
find_self [] d = tt
find_self (x ∷ t) d = (
  ground arith,
  All-both (λ y. same_event x y ≡ false) (λ e. find (event_has_id e.id) t ≡ some e)
      (λ e. find (event_has_id e.id) (x ∷ t) ≡ some e) (λ e apart found. ground arith) t d.0
      (find_self t d.1),
)

holds-select :
    (p : OutboxEvent → Bool) (xs : List OutboxEvent) → All (λ x. p x ≡ true) (select p xs)
holds-select p [] = tt
holds-select p (x ∷ xs) = elim (Bool-cases (p x)) [
  | inl e ↦ rw e (e, holds-select p xs)
  | inr e ↦ rw e (holds-select p xs)
]

abbrev pub is_open : OutboxConfig → (Uuid → Bool) → ℕ → OutboxEvent → Bool
is_open config locked now e = is_claimable (attempts_bound config) now e && not (locked e.id)

-- Where the ids of the events are distinct, a batch consists of rows of the table that are waiting, due,
-- below the bound on attempts and not locked, no row twice, the oldest first; and it takes as many of
-- these rows as there are, up to the size of a batch.
pub claim_batch_lem :
    (config : OutboxConfig) (locked : Uuid → Bool) (now : ℕ) (d : Database)
    → Distinct same_event d.outbox_events
    → let batch = claimed config locked now d in
      All
        (λ e.
          (find (event_has_id e.id) d.outbox_events ≡ some e)
          × (is_open config locked now e ≡ true))
        batch
      × Distinct same_event batch
      × IsOrdered batch
      × (length batch
          ≡ min (batch_size config) (length (select (is_open config locked now) d.outbox_events)))
unfolding claim_batch
claim_batch_lem config locked now d ids =
    let t = d.outbox_events in
    let n = batch_size config in
    let p = is_open config locked now in
    let rows = select p t in
    let Row = λ (e : OutboxEvent). (find (event_has_id e.id) t ≡ some e) × (p e ≡ true) in
    let in_table = All-select (λ e. find (event_has_id e.id) t ≡ some e) p t (find_self t ids) in
    let both =
      All-both (λ e. find (event_has_id e.id) t ≡ some e) (λ e. p e ≡ true) Row (λ e f h. (f, h))
        rows in_table (holds-select p t) in
    (
      All-take Row n (order_by_created_at rows) (All-order_by Row rows both),
      Distinct-take n (order_by_created_at rows) (Distinct-order_by rows (Distinct-select p t ids)),
      take-IsOrdered n (order_by_created_at rows) (order_by-IsOrdered rows),
      length-take n (order_by_created_at rows) ∙ ap (min n) (length-order_by rows),
    )
