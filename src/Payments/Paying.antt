-- ===== src/Payments/Paying.antt =====
-- Paying for an order whose payment is authorized (src/payments/payments.service.ts), and paying again.
use e_commerce_order_platfor.Common.{
  ℕ, ◌≡◌, refl, true, ◌&&◌, Option, none, some, List, [], ◌∷◌, ◌++◌, ok, err, Message, String, text,
  gateway_timeout, inl, inr, arith, Bool-cases, Option-cases, any, find, find-update_where,
  update_where,
}
use e_commerce_order_platfor.Database.{Uuid, EPaymentStatus, Payment, Order, Session}
use e_commerce_order_platfor.Auth.{AuthUser, ERoles, is_admin_or_support, is_staff, some_of}
use e_commerce_order_platfor.Runtime.{App}
use e_commerce_order_platfor.PaymentService.Service.{has_id, payment_by_id, capture, done}
use e_commerce_order_platfor.PaymentService.Grpc.{reply, capture_rpc}
use e_commerce_order_platfor.Orders.Manage.{orders_of, may_read}
use e_commerce_order_platfor.Orders.Manage as Manage
use e_commerce_order_platfor.Payments.{
  in_time, late, PayEnv, Desk, db_of, of_order, pay, pay_order, can_activate, is_support_or_admin,
  success_audit, failure_audit,
}

abbrev pub as_captured : ℕ → Payment → Payment
as_captured now q = record q { status = EPaymentStatus.paid; paid_at = some now }

-- The session after the capture of the payment `i`.
abbrev pub captured_session : ℕ → Uuid → Session → Session
captured_session now i s = record s {
  db = record s.db { payments = update_where (has_id i) (as_captured now) s.db.payments };
  tx = none;
}

capture_pending :
    (driver_message : String → Message) (now : ℕ) (q : Payment) (s : Session)
    → payment_by_id q.id s.db ≡ some q
    → q.status ≡ EPaymentStatus.pending
    → capture_rpc driver_message now (some q.id) s
      ≡ (reply (done "Payment " q.id " captured"), captured_session now q.id s)
unfolding capture_rpc capture
capture_pending driver_message now q s found pending = ground arith

-- The order of the payment `q`, for a user who may pay it.
abbrev pub Payable : Uuid → AuthUser → Order → Payment → Desk → Type 0
Payable i u o q w =
    (find (λ x. Manage.has_id i x && may_read u x) (orders_of w.app) ≡ some o)
    × (find (of_order i) (db_of w).payments ≡ some q)
    × (payment_by_id q.id (db_of w) ≡ some q)

-- A paid order is answered with its payment, whatever the network does, and nothing is written.
paid_is_answered :
    (env : PayEnv) (i : Uuid) (u : AuthUser) (o : Order) (q : Payment) (w : Desk)
    → Payable i u o q w
    → q.status ≡ EPaymentStatus.paid
    → pay_order env i u w ≡ (ok q, w)
unfolding pay_order pay
paid_is_answered env i u o q w (readable, first, own) paid = rw (readable, first, paid) refl

captured_found :
    (i : Uuid) (now : ℕ) (q : Payment) (ps : List Payment)
    → find (of_order i) ps ≡ some q
    → find (of_order i) (update_where (has_id q.id) (as_captured now) ps) ≡ some (as_captured now q)
captured_found i now q ps first =
    ground (arith, find-update_where (of_order i) (has_id q.id) (as_captured now) (λ x. refl) ps)

captured_own :
    (now : ℕ) (q : Payment) (ps : List Payment)
    → find (has_id q.id) ps ≡ some q
    → find (has_id q.id) (update_where (has_id q.id) (as_captured now) ps)
      ≡ some (as_captured now q)
captured_own now q ps own =
    ground (arith, find-update_where (has_id q.id) (has_id q.id) (as_captured now) (λ x. refl) ps)

-- The desk after a capture whose reply is late.
abbrev late_desk : PayEnv → AuthUser → Order → Payment → Desk → Desk
late_desk env u o q w = record w {
  app = record w.app {
    session = captured_session env.now q.id w.app.session;
    audit = w.app.audit ++ failure_audit u o.id (text "Timeout has occurred") ∷ [];
  };
}

late_capture :
    (env : PayEnv) (i : Uuid) (u : AuthUser) (o : Order) (q : Payment) (w : Desk)
    → Payable i u o q w
    → q.status ≡ EPaymentStatus.pending
    → env.capture_network ≡ late
    → pay_order env i u w
      ≡ (err (gateway_timeout (text "Payments capture timeout")), late_desk env u o q w)
unfolding pay_order pay
late_capture env i u o q w (readable, first, own) pending slow =
    rw
      (
        readable,
        first,
        pending,
        slow,
        capture_pending env.driver_message env.now q w.app.session own pending,
      )
      refl

-- The desk after a capture that was answered in time.
abbrev pub paid_desk : PayEnv → AuthUser → Order → Payment → Desk → Desk
paid_desk env u o q w = record w {
  app = record w.app {
    session = captured_session env.now q.id w.app.session;
    audit = w.app.audit ++ success_audit u (as_captured env.now q) ∷ [];
  };
}

-- Where the payment of an order is authorized and the capture is answered in time, the client gets the
-- payment, captured at the time of the call; the payment is marked so in the table and one line of audit
-- is added; nothing else of the application changes. All this whatever becomes of the event for Kafka.
pub authorized_is_paid :
    (env : PayEnv) (i : Uuid) (u : AuthUser) (o : Order) (q : Payment) (w : Desk)
    → Payable i u o q w
    → q.status ≡ EPaymentStatus.pending
    → env.capture_network ≡ in_time
    → ((pay_order env i u w).0 ≡ ok (as_captured env.now q))
      × ((pay_order env i u w).1.app ≡ (paid_desk env u o q w).app)
unfolding pay_order pay
authorized_is_paid env i u o q w (readable, first, own) pending fast =
    let captured = capture_pending env.driver_message env.now q w.app.session own pending in
    let read = captured_own env.now q (db_of w).payments own in
    elim (Bool-cases env.kafka_enabled) [
      | inr off ↦ rw (readable, first, pending, fast, captured, read, off) (refl, refl)
      | inl on ↦ elim (Option-cases env.topic_payments_events) [
        | inl absent ↦ rw (readable, first, pending, fast, captured, read, on, absent) (refl, refl)
        | inr (topic, given) ↦ elim (Option-cases env.publish_fails) [
          | inl fine ↦
              rw (readable, first, pending, fast, captured, read, on, given, fine) (refl, refl)
          | inr (x, failed) ↦
              rw (readable, first, pending, fast, captured, read, on, given, failed) (refl, refl)
        ]
      ]
    ]

-- Where the payment of an order is authorized and the reply to its capture is late, the client is
-- told so by a 504 although the payment is captured; paying again, whatever the network does then,
-- answers with that payment, captured at the time of the first call, and writes nothing: no payment
-- is captured twice.
pub late_capture_then_pay :
    (env env' : PayEnv) (i : Uuid) (u : AuthUser) (o : Order) (q : Payment) (w : Desk)
    → Payable i u o q w
    → q.status ≡ EPaymentStatus.pending
    → env.capture_network ≡ late
    → let w' = (pay_order env i u w).1 in
      ((pay_order env i u w).0 ≡ err (gateway_timeout (text "Payments capture timeout")))
      × (pay_order env' i u w' ≡ (ok (as_captured env.now q), w'))
late_capture_then_pay env env' i u o q w payable pending slow =
    let first = late_capture env i u o q w payable pending slow in
    let again =
      paid_is_answered env' i u o (as_captured env.now q) (late_desk env u o q w)
        (
          payable.0,
          captured_found i env.now q (db_of w).payments payable.1,
          captured_own env.now q (db_of w).payments payable.2,
        )
        refl in
    rw first (refl, again)

same_staff_role : (r : ERoles) → is_support_or_admin r ≡ is_admin_or_support r
same_staff_role ERoles.admin = refl
same_staff_role ERoles.owner = refl
same_staff_role ERoles.support = refl
same_staff_role ERoles.user = refl

any_same : (rs : List ERoles) → any is_support_or_admin rs ≡ any is_admin_or_support rs
any_same [] = refl
any_same (r ∷ rs) = rw (same_staff_role r, any_same rs) refl

same_staff : (roles : Option (List ERoles)) → some_of is_support_or_admin roles ≡ is_staff roles
same_staff none = refl
same_staff (some rs) = any_same rs

-- Whom the guard lets through to an order, the service finds the order for: the order exists, and the
-- user owns it or is staff.
guarded_is_readable :
    (i : Uuid) (u : AuthUser) (w : App)
    → can_activate (some u) (some i) w ≡ (ok true, w)
    → (o : Order) × (find (Manage.has_id i) (orders_of w) ≡ some o) × (may_read u o ≡ true)
unfolding can_activate
guarded_is_readable i u w passes = elim (Option-cases (find (Manage.has_id i) (orders_of w))) [
  | inl missing ↦ absurd (ground arith)
  | inr (o, here) ↦ (
    o,
    here,
    elim (Bool-cases (is_staff u.roles)) [
      | inl staff ↦ ground arith
      | inr client ↦ ground (arith, same_staff u.roles)
    ],
  )
]
