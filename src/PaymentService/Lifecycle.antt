-- ===== src/PaymentService/Lifecycle.antt =====
-- The life of a payment over any sequence of calls to src/payment-service/payments.service.ts.
use e_commerce_order_platfor.Common.{
  ℕ, ◌≡◌, refl, ◌≢◌, ◌⊎◌, inl, inr, Option, none, some, true, List, [], ◌∷◌, ap, ◌∙◌, arith,
  Option-cases, Bool-cases, Result-cases, find-update_where, find-append_some, find_holds, ◌==◌,
  update_where,
}
use e_commerce_order_platfor.Database.{Uuid, EPaymentStatus, Payment, Session, Database}
use e_commerce_order_platfor.PaymentService.Service.{
  AuthorizeRequest, authorize, capture, refund, payment_by_id, has_id, Money, save_payment,
  new_payment, validate_authorize_request,
}
use e_commerce_order_platfor.PaymentService.Atomic.{
  Call, authorize_call, capture_call, refund_call, after,
}

EPaymentStatus-discrete : Discrete EPaymentStatus
EPaymentStatus-discrete = hlevel

-- One move of a payment's status.
pub data Moves : EPaymentStatus → EPaymentStatus → Type 0 where
  captures : Moves EPaymentStatus.pending EPaymentStatus.paid
  refunds : Moves EPaymentStatus.paid EPaymentStatus.refunded

pub data Leads (a : EPaymentStatus) : EPaymentStatus → Type 0 where
  here : Leads a a
  next : {b c : EPaymentStatus} → Leads a b → Moves b c → Leads a c

-- The same payment, further on in its life.
pub record Follows (p q : Payment) : Type 0 where
  pub same_id : q.id ≡ p.id
  pub same_order : q.order_id ≡ p.order_id
  pub same_key : q.idempotency_key ≡ p.idempotency_key
  pub same_amount : q.paid_amount ≡ p.paid_amount
  pub moves : Leads p.status q.status

abbrev pub as_captured : ℕ → Payment → Payment
as_captured now q = record q { status = EPaymentStatus.paid; paid_at = some now }

abbrev pub as_refunded : Payment → Payment
as_refunded q = record q { status = EPaymentStatus.refunded }

pub status_cases : (b a : EPaymentStatus) → (a ≡ b) ⊎ (a ≢ b)
status_cases b a = elim (EPaymentStatus-discrete a b) [ yes e ↦ inl e | no ne ↦ inr ne ]

-- `capture` writes nothing, or finds an authorized payment and marks it as paid.
capture_writes :
    (now : ℕ) (i : Uuid) (s : Session)
    → ((capture now (some i) s).1.db ≡ s.db)
      ⊎ ((p : Payment) × (payment_by_id i s.db ≡ some p)
          × (p.status ≡ EPaymentStatus.pending)
          × ((capture now (some i) s).1.db.payments
              ≡ update_where (has_id i) (as_captured now) s.db.payments))
unfolding capture
capture_writes now i s = elim (Option-cases (payment_by_id i s.db)) [
  | inl missing ↦ inl (ground arith)
  | inr (p, found) ↦ elim (status_cases EPaymentStatus.pending p.status) [
    | inl e ↦ inr (p, found, e, ground arith)
    | inr ne ↦ inl (ground arith)
  ]
]

-- `refund` writes nothing, or finds a captured payment and marks it as refunded.
refund_writes :
    (i : Uuid) (amount : Option Money) (s : Session)
    → ((refund (some i) amount s).1.db ≡ s.db)
      ⊎ ((p : Payment) × (payment_by_id i s.db ≡ some p)
          × (p.status ≡ EPaymentStatus.paid)
          × ((refund (some i) amount s).1.db.payments
              ≡ update_where (has_id i) as_refunded s.db.payments))
unfolding refund
refund_writes i amount s = elim (Option-cases (payment_by_id i s.db)) [
  | inl missing ↦ inl (ground arith)
  | inr (p, found) ↦ elim (status_cases EPaymentStatus.paid p.status) [
    | inl e ↦ inr (p, found, e, ground arith)
    | inr ne ↦ inl (ground arith)
  ]
]

save_payment-keeps :
    (p q : Payment) (i : Uuid) (d : Database)
    → payment_by_id i d ≡ some q
    → payment_by_id i (save_payment p d).1 ≡ some q
unfolding save_payment
save_payment-keeps p q i d h = ground (arith, find-append_some (has_id i) d.payments (p ∷ []) q)

-- `authorize` adds at most one payment, at the end.
authorize-keeps :
    (fresh : Uuid) (r : AuthorizeRequest) (q : Payment) (i : Uuid) (s : Session)
    → payment_by_id i s.db ≡ some q
    → payment_by_id i (authorize fresh r s).1.db ≡ some q
unfolding authorize
authorize-keeps fresh r q i s h = elim (Result-cases (validate_authorize_request r)) [
  | inl (a, e) ↦
      ground (arith, save_payment-keeps (new_payment fresh a EPaymentStatus.pending) q i s.db h)
  | inr (x, e) ↦ ground arith
]

-- What became of the payment `p` with the id `i`.
abbrev pub Kept : Uuid → Payment → Session → Type 0
Kept i p s = (q : Payment) × (payment_by_id i s.db ≡ some q) × Follows p q

module _ (i : Uuid) (p : Payment) where
  self-Follows : Follows p p
  self-Follows = record {
    same_id = refl;
    same_order = refl;
    same_key = refl;
    same_amount = refl;
    moves = here;
  }

  unchanged :
      (s s' : Session)
      → payment_by_id i s.db ≡ some p
      → s'.db.payments ≡ s.db.payments
      → Kept i p s'
  unchanged s s' found e = (p, rw e found, self-Follows)

  -- A payment with the ids `i` and `j` is what a search by `j` finds.
  same_payment :
      (j : Uuid) (s : Session) (r : Payment)
      → payment_by_id i s.db ≡ some p
      → payment_by_id j s.db ≡ some r
      → (p.id == j) ≡ true
      → p ≡ r
  same_payment j s r found other hit =
      let id_i : i ≡ j = ground (arith, find_holds (has_id i) s.db.payments p found) in
      let other' : payment_by_id i s.db ≡ some r = rw id_i other in cc

  -- The update of the payment `j` is seen at `i` only if they are one.
  updated :
      (j : Uuid) (f : Payment → Payment) (s s' : Session) (r : Payment)
      → payment_by_id i s.db ≡ some p
      → payment_by_id j s.db ≡ some r
      → s'.db.payments ≡ update_where (has_id j) f s.db.payments
      → ((q : Payment) → (f q).id ≡ q.id)
      → Follows r (f r)
      → Kept i p s'
  updated j f s s' r found other e same h =
      let seen =
        find-update_where (has_id i) (has_id j) f (λ q. ap (λ (n : ℕ). n == i) (same q))
          s.db.payments in
      elim (Bool-cases (p.id == j)) [
        | inl hit ↦ (f p, rw e (ground arith), rw (same_payment j s r found other hit) h)
        | inr miss ↦ (p, rw e (ground arith), self-Follows)
      ]

captured-Follows :
    (now : ℕ) (p : Payment) → p.status ≡ EPaymentStatus.pending → Follows p (as_captured now p)
captured-Follows now p e = record {
  same_id = refl;
  same_order = refl;
  same_key = refl;
  same_amount = refl;
  moves = next here (rw e captures);
}

refunded-Follows : (p : Payment) → p.status ≡ EPaymentStatus.paid → Follows p (as_refunded p)
refunded-Follows p e = record {
  same_id = refl;
  same_order = refl;
  same_key = refl;
  same_amount = refl;
  moves = next here (rw e refunds);
}

after-Kept :
    (c : Call) (i : Uuid) (p : Payment) (s : Session)
    → payment_by_id i s.db ≡ some p
    → Kept i p (after c s)
unfolding after
after-Kept (authorize_call fresh r) i p s found =
    (p, authorize-keeps fresh r p i s found, self-Follows i p)
after-Kept (capture_call now none) i p s found = (p, unfold capture in found, self-Follows i p)
after-Kept (capture_call now (some j)) i p s found = elim (capture_writes now j s) [
  | inl e ↦ unchanged i p s (capture now (some j) s).1 found (ap (λ (d : Database). d.payments) e)
  | inr (r, other, status, e) ↦
      updated i p j (as_captured now) s (capture now (some j) s).1 r found other e (λ q. refl)
        (captured-Follows now r status)
]
after-Kept (refund_call none amount) i p s found = (p, unfold refund in found, self-Follows i p)
after-Kept (refund_call (some j) amount) i p s found = elim (refund_writes j amount s) [
  | inl e ↦ unchanged i p s (refund (some j) amount s).1 found (ap (λ (d : Database). d.payments) e)
  | inr (r, other, status, e) ↦
      updated i p j as_refunded s (refund (some j) amount s).1 r found other e (λ q. refl)
        (refunded-Follows r status)
]

Leads-trans : {a b c : EPaymentStatus} → Leads a b → Leads b c → Leads a c
Leads-trans l here = l
Leads-trans l (next m k) = next (Leads-trans l m) k

Follows-trans : (p q r : Payment) → Follows p q → Follows q r → Follows p r
Follows-trans p q r f g = record {
  same_id = g.same_id ∙ f.same_id;
  same_order = g.same_order ∙ f.same_order;
  same_key = g.same_key ∙ f.same_key;
  same_amount = g.same_amount ∙ f.same_amount;
  moves = Leads-trans f.moves g.moves;
}

-- The session after a sequence of calls.
unfoldable pub run : List Call → Session → Session
run [] s = s
run (c ∷ cs) s = run cs (after c s)

-- Over any sequence of calls, a payment that is found by an id is still found by it, with its order,
-- its idempotency key and its amount, and its status moves only from PENDING to PAID to REFUNDED.
pub run-Kept :
    (cs : List Call) (i : Uuid) (p : Payment) (s : Session)
    → payment_by_id i s.db ≡ some p
    → Kept i p (run cs s)
unfolding run
run-Kept [] i p s found = (p, found, self-Follows i p)
run-Kept (c ∷ cs) i p s found =
    let (q, found', f) = after-Kept c i p s found in
    let (r, found'', g) = run-Kept cs i q (after c s) found' in
    (r, found'', Follows-trans p q r f g)
