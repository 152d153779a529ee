-- ===== src/Realtime/Rooms.antt =====
-- Which events a client of src/realtime/orders.gateway.ts can receive.
use e_commerce_order_platfor.Common.{
  ℕ, ◌≡◌, refl, ◌∙◌, Bool, true, Option, none, some, List, [], ◌∷◌, mem, delete_where, find, All,
  length, leb, inl, inr, ◌⊎◌, arith, Bool-cases, Option-cases, ◌==◌, ==_iff,
}
use e_commerce_order_platfor.Database.{Uuid, Order}
use e_commerce_order_platfor.Runtime.{App, OrderStatusChangedEvent}
use e_commerce_order_platfor.Auth.{AuthUser}
use e_commerce_order_platfor.Orders.Manage.{has_id, orders_of, may_read, can_subscribe_to_order}
use e_commerce_order_platfor.Realtime.{
  Client, Socket, subscribe_order, unsubscribe_order, assert_rate_limit, recent_calls, max_calls,
  reached,
}

-- The order exists, and the user owns it or is staff.
abbrev pub Readable : App → Option AuthUser → Uuid → Type 0
Readable w none i = ⊥
Readable w (some u) i =
    (o : Order) × (find (has_id i) (orders_of w) ≡ some o) × (may_read u o ≡ true)

All-delete_where :
    (P : Uuid → Type 0) (p : Uuid → Bool) (xs : List Uuid) → All P xs → All P (delete_where p xs)
All-delete_where P p [] h = tt
All-delete_where P p (x ∷ xs) h = elim (Bool-cases (p x)) [
  | inl e ↦ rw e (All-delete_where P p xs h.1)
  | inr e ↦ rw e (h.0, All-delete_where P p xs h.1)
]

-- A call leaves the application and the user alone, and adds no room but one that the user may read.
abbrev Joins : Socket → Socket → Type 0
Joins s s' =
    (s'.1 ≡ s.1)
    × (s'.0.user ≡ s.0.user)
    × ((s'.0.rooms ≡ s.0.rooms)
        ⊎ ((i : Uuid) × Readable s.1 s.0.user i
            × (s'.0.rooms ≡ i ∷ delete_where (λ r. r == i) s.0.rooms)))

subscribe_order-Joins :
    (now : ℕ) (order_id : Option Uuid) (s : Socket) → Joins s (subscribe_order now order_id s).1
unfolding subscribe_order assert_rate_limit can_subscribe_to_order
subscribe_order-Joins now order_id (c, w) =
    elim (Bool-cases (leb max_calls (length (recent_calls now c.subscribe_calls)))) [
      | inl full ↦ rw full (refl, refl, inl refl)
      | inr room ↦ elim (Option-cases order_id) [
        | inl absent ↦ rw (room, absent) (refl, refl, inl refl)
        | inr (i, given) ↦ elim (Option-cases c.user) [
          | inl nobody ↦ rw (room, given, nobody) (refl, refl, inl refl)
          | inr (u, known) ↦ elim (Option-cases (find (has_id i) (orders_of w))) [
            | inl missing ↦ rw (room, given, known, missing) (refl, refl, inl refl)
            | inr (o, here) ↦ elim (Bool-cases (may_read u o)) [
              | inl able ↦
                  rw (room, given, known, here, able) (refl, refl, inr (i, (o, here, able), refl))
              | inr barred ↦ rw (room, given, known, here, barred) (refl, refl, inl refl)
            ]
          ]
        ]
      ]
    ]

-- The calls of a client, at their times.
pub data ClientCall : Type 0 where
  subscribe : ℕ → Option Uuid → ClientCall
  unsubscribe : Option Uuid → ClientCall

abbrev pub call : ClientCall → Socket → Socket
call (subscribe now i) s = (subscribe_order now i s).1
call (unsubscribe i) s = (unsubscribe_order i s).1

abbrev pub calls : List ClientCall → Socket → Socket
calls [] s = s
calls (e ∷ es) s = calls es (call e s)

abbrev Safe : App → Option AuthUser → Socket → Type 0
Safe w user s = (s.1 ≡ w) × (s.0.user ≡ user) × All (Readable w user) s.0.rooms

call-Safe :
    (e : ClientCall) (w : App) (user : Option AuthUser) (s : Socket)
    → Safe w user s
    → Safe w user (call e s)
unfolding unsubscribe_order
call-Safe (unsubscribe none) w user (c, v) h = h
call-Safe (unsubscribe (some i)) w user (c, v) h =
    (h.0, h.1, All-delete_where (Readable w user) (λ r. r == i) c.rooms h.2)
call-Safe (subscribe now i) w user s h =
    let (same_app, same_user, rooms) = subscribe_order-Joins now i s in
    (
      same_app ∙ h.0,
      same_user ∙ h.1,
      elim rooms [
        | inl same ↦ rw same h.2
        | inr (k, able, joined) ↦
            rw joined (
              rw (← h.0, ← h.1) able,
              All-delete_where (Readable w user) (λ r. r == k) s.0.rooms h.2,
            )
      ],
    )

calls-Safe :
    (es : List ClientCall) (w : App) (user : Option AuthUser) (s : Socket)
    → Safe w user s
    → Safe w user (calls es s)
calls-Safe [] w user s h = h
calls-Safe (e ∷ es) w user s h = calls-Safe es w user (call e s) (call-Safe e w user s h)

mem-All : (P : Uuid → Type 0) (i : Uuid) (xs : List Uuid) → All P xs → mem i xs ≡ true → P i
mem-All P i [] h e = absurd (cc)
mem-All P i (x ∷ xs) h e = elim (Bool-cases (i == x)) [
  | inl same ↦ rw ((==_iff i x).0 same) h.0
  | inr other ↦ mem-All P i xs h.1 (ground arith)
]

-- Whatever a client that starts in no room calls, the calls change nothing of the application or of who
-- the client is; and an event of an order reaches the client only if the order exists and the user of its
-- token owns it or is staff.
pub events_reach_readers :
    (es : List ClientCall) (c : Client) (w : App) (e : OrderStatusChangedEvent)
    → c.rooms ≡ []
    → reached e (calls es (c, w)).0 ≡ true
    → ((calls es (c, w)).1 ≡ w) × Readable w c.user e.order_id
events_reach_readers es c w e start reaches =
    let safe = calls-Safe es w c.user (c, w) (refl, refl, rw start tt) in
    (safe.0, mem-All (Readable w c.user) e.order_id (calls es (c, w)).0.rooms safe.2 (ground arith))
