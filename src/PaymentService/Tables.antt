-- ===== src/PaymentService/Tables.antt =====
-- What a write to the table of payments (src/payment-service/payments.service.ts) does to its ledger.
use e_commerce_order_platfor.Common.{
  ◌≡◌, refl, ap, ◌∙◌, true, false, ◌&&◌, Option, none, some, List, [], ◌∷◌, ◌++◌, inl, inr, arith,
  find, ==_iff, Option-cases, Bool-cases, find-update_where, find_holds, find-append_none,
  find-append_some, update_where, ◌==◌, if◌then◌else◌,
}
use e_commerce_order_platfor.Database.{Uuid, EPaymentStatus, Payment, Database}
use e_commerce_order_platfor.PaymentService.Service.{payment_by_id, payment_by_key, has_id, has_key}
use e_commerce_order_platfor.PaymentService.Ledger.{
  Ledger, to_authorize, Outcome, answered, Same, Moved, Step, authorizes,
}

abbrev pub status_in : Option Payment → Option EPaymentStatus
status_in none = none
status_in (some p) = some p.status

abbrev pub id_in : Option Payment → Option Uuid
id_in none = none
id_in (some p) = some p.id

-- The ledger of the committed tables.
abbrev pub ledger_of : Database → Ledger
ledger_of d = record {
  status = λ i. status_in (payment_by_id i d);
  payment_of = λ o k. id_in (payment_by_key o k d);
}

pub Same-payments : (d d' : Database) → d'.payments ≡ d.payments → Same (ledger_of d) (ledger_of d')
Same-payments d d' e = record {
  statuses = λ i. ap (λ ps. status_in (find (has_id i) ps)) e;
  keys = λ o k. ap (λ ps. id_in (find (has_key o k) ps)) e;
}

apart :
    (i j : Uuid) (p : Payment) (ps : List Payment)
    → find (has_id i) ps ≡ some p
    → find (has_id j) ps ≡ none
    → (j == i) ≡ false
apart i j p ps found missing = elim (Bool-cases (j == i)) [
  | inr miss ↦ miss
  | inl hit ↦ let same = ap (λ n. find (has_id n) ps) ((==_iff j i).0 hit) in absurd (ground arith)
]

apart_key :
    (o k : Uuid) (p q : Payment) (ps : List Payment)
    → find (has_key o k) ps ≡ some q
    → find (has_key p.order_id p.idempotency_key) ps ≡ none
    → has_key o k p ≡ false
apart_key o k p q ps found missing = elim (Bool-cases (has_key o k p)) [
  | inr miss ↦ miss
  | inl hit ↦
      let order = (==_iff p.order_id o).0 (ground arith) in
      let key = (==_iff p.idempotency_key k).0 (ground arith) in
      let same =
        ap (λ n. find (has_key n p.idempotency_key) ps) order
        ∙ ap (λ n. find (has_key o n) ps) key in
      absurd (ground arith)
]

-- An update of the payment `i` that sets its status and keeps its ids.
module _ (i : Uuid) (status : EPaymentStatus) (f : Payment → Payment)
    (sets : (p : Payment) → (f p).status ≡ status) (id : (p : Payment) → (f p).id ≡ p.id)
    (key : (o k : Uuid) (p : Payment) → has_key o k (f p) ≡ has_key o k p) where
  status_after :
      (j : Uuid) (p : Payment) (ps : List Payment)
      → find (has_id i) ps ≡ some p
      → status_in (find (has_id j) (update_where (has_id i) f ps))
        ≡ (if j == i then some status else status_in (find (has_id j) ps))
  status_after j p ps found =
      let seen = find-update_where (has_id j) (has_id i) f (λ q. ap (λ n. n == j) (id q)) ps in
      elim (Option-cases (find (has_id j) ps)) [
        | inl missing ↦
            let other : (j == i) ≡ false = apart i j p ps found missing in
            rw (seen, missing, other) refl
        | inr (q, there) ↦
            let same_id : q.id ≡ j = (==_iff q.id j).0 (find_holds (has_id j) ps q there) in
            elim (Bool-cases (j == i)) [
              | inl hit ↦
                  let mine : has_id i q ≡ true = ap (λ n. n == i) same_id ∙ hit in
                  rw (seen, there, mine, hit) (ap (λ (s : EPaymentStatus). some s) (sets q))
              | inr miss ↦
                  let others : has_id i q ≡ false = ap (λ n. n == i) same_id ∙ miss in
                  rw (seen, there, others, miss) refl
            ]
      ]

  keys_after :
      (o k : Uuid) (ps : List Payment)
      → id_in (find (has_key o k) (update_where (has_id i) f ps)) ≡ id_in (find (has_key o k) ps)
  keys_after o k ps =
      let seen = find-update_where (has_key o k) (has_id i) f (key o k) ps in
      elim (Option-cases (find (has_key o k) ps)) [
        | inl missing ↦ rw (seen, missing) refl
        | inr (q, there) ↦ elim (Bool-cases (has_id i q)) [
          | inl mine ↦ rw (seen, there, mine) (ap (λ n. some n) (id q))
          | inr others ↦ rw (seen, there, others) refl
        ]
      ]

  pub moved :
      (p : Payment) (d d' : Database)
      → payment_by_id i d ≡ some p
      → d'.payments ≡ update_where (has_id i) f d.payments
      → Moved i status (ledger_of d) (ledger_of d')
  moved p d d' found e = record {
    statuses = λ j. ap (λ ps. status_in (find (has_id j) ps)) e ∙ status_after j p d.payments found;
    keys = λ o k. ap (λ ps. id_in (find (has_key o k) ps)) e ∙ keys_after o k d.payments;
  }

-- A payment with an unused id and an unused key, at the end of the table.
module _ (p : Payment) (ps : List Payment) (is_pending : p.status ≡ EPaymentStatus.pending) where
  status_opened :
      (j : Uuid)
      → find (has_id p.id) ps ≡ none
      → status_in (find (has_id j) (ps ++ p ∷ []))
        ≡ (if p.id == j then some EPaymentStatus.pending else status_in (find (has_id j) ps))
  status_opened j unused = elim (Option-cases (find (has_id j) ps)) [
    | inl missing ↦
        rw (find-append_none (has_id j) ps (p ∷ []) missing, missing)
          (elim (Bool-cases (p.id == j)) [
            | inl hit ↦ rw (hit, is_pending) refl
            | inr miss ↦ rw miss refl
          ])
    | inr (q, there) ↦
        let other = apart j p.id q ps there unused in
        rw (find-append_some (has_id j) ps (p ∷ []) q there, there, other) refl
  ]

  key_opened :
      (o k : Uuid)
      → find (has_key p.order_id p.idempotency_key) ps ≡ none
      → id_in (find (has_key o k) (ps ++ p ∷ [])) ≡ (
          if p.order_id == o && p.idempotency_key == k
          then some p.id
          else id_in (find (has_key o k) ps))
  key_opened o k free = elim (Option-cases (find (has_key o k) ps)) [
    | inl missing ↦
        rw (find-append_none (has_key o k) ps (p ∷ []) missing, missing)
          (elim (Bool-cases (has_key o k p)) [ inl hit ↦ rw hit refl | inr miss ↦ rw miss refl ])
    | inr (q, there) ↦
        let other = apart_key o k p q ps there free in
        rw (find-append_some (has_key o k) ps (p ∷ []) q there, there, other) refl
  ]

pub opens :
    (p : Payment) (o : Outcome) (d d' : Database)
    → p.status ≡ EPaymentStatus.pending
    → payment_by_id p.id d ≡ none
    → payment_by_key p.order_id p.idempotency_key d ≡ none
    → o ≡ answered p.id
    → d'.payments ≡ d.payments ++ p ∷ []
    → Step (ledger_of d) (to_authorize p.order_id p.idempotency_key p.id) o (ledger_of d')
opens p o d d' is_pending unused free e added = rw e (
    authorizes (ap (λ q. id_in q) free) (record {
      statuses = λ j.
          ap (λ ps. status_in (find (has_id j) ps)) added
          ∙ status_opened p d.payments is_pending j unused;
      keys = λ o k.
          ap (λ ps. id_in (find (has_key o k) ps)) added
          ∙ key_opened p d.payments is_pending o k free;
    }))
