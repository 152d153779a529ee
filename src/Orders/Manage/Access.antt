-- ===== src/Orders/Manage/Access.antt =====
-- Who may read, follow and change an order (src/orders/orders.service.ts).
use e_commerce_order_platfor.Common.{
  ℕ, ◌≡◌, refl, Bool, true, false, ◌&&◌, Option, none, some, List, [], ◌∷◌, ◌++◌, Result, ok, err,
  text, about, forbidden, not_found, find, inl, inr, arith, Bool-cases, Option-cases, Distinct, All,
  ◌==◌, if◌then◌else◌,
}
use e_commerce_order_platfor.Database.{Uuid, EOrderStatus, Order, same_status}
use e_commerce_order_platfor.Runtime.{App}
use e_commerce_order_platfor.Auth.{AuthUser, is_staff}
use e_commerce_order_platfor.Orders.Manage.{
  has_id, orders_of, may_read, find_one, can_subscribe_to_order, update_status, with_status,
  status_event, status_audit, save_order,
}

abbrev pub same_order : Order → Order → Bool
same_order x y = y.id == x.id

find-apart :
    (x : Order) (q : Order → Bool) (i : Uuid) (os : List Order)
    → All (λ y. same_order x y ≡ false) os
    → has_id i x ≡ true
    → find (λ o. has_id i o && q o) os ≡ none
find-apart x q i [] h e = refl
find-apart x q i (y ∷ os) h e = ground (arith, find-apart x q i os h.1 e)

abbrev allowed : (Order → Bool) → Option Order → Option Order
allowed q none = none
allowed q (some o) = if q o then some o else none

-- Where ids are distinct, to look for an order among those allowed is to look for it and then test it.
find-allowed :
    (q : Order → Bool) (i : Uuid) (os : List Order)
    → Distinct same_order os
    → find (λ o. has_id i o && q o) os ≡ allowed q (find (has_id i) os)
find-allowed q i [] d = refl
find-allowed q i (x ∷ os) d = elim (Bool-cases (has_id i x)) [
  | inl hit ↦ ground (arith, find-apart x q i os d.0 hit, Bool-cases (q x))
  | inr miss ↦ ground (arith, find-allowed q i os d.1)
]

abbrev pub is_ok : {A : Type 0} → Result A → Bool
is_ok (ok a) = true
is_ok (err e) = false

abbrev pub holds_of : (Order → Bool) → Option Order → Bool
holds_of q none = false
holds_of q (some o) = q o

-- Where the ids of the orders are distinct, a user may follow exactly the orders that the user may read:
-- those that exist and are the user's own, and all for staff. Neither question changes anything.
can_subscribe_as_find_one :
    (i : Uuid) (u : AuthUser) (w : App)
    → Distinct same_order (orders_of w)
    → (is_ok (can_subscribe_to_order i u w).0 ≡ is_ok (find_one u i w).0)
      × (is_ok (find_one u i w).0 ≡ holds_of (may_read u) (find (has_id i) (orders_of w)))
      × ((can_subscribe_to_order i u w).1 ≡ w)
      × ((find_one u i w).1 ≡ w)
unfolding can_subscribe_to_order find_one
can_subscribe_as_find_one i u w d =
    let same = find-allowed (may_read u) i (orders_of w) d in
    elim (Option-cases (find (has_id i) (orders_of w))) [
      | inl missing ↦ ground arith
      | inr (o, here) ↦ elim (Bool-cases (may_read u o)) [
        | inl able ↦ ground arith
        | inr barred ↦ ground arith
      ]
    ]

-- What a call of `updateStatus` does, by who asks and which order there is: only staff change a status,
-- only of an order that exists, and to the status that the order has already there is no change. In
-- these cases nothing is written, announced or audited. A change writes the whole row as it was read, over
-- what others committed meanwhile, with the status and a version one higher, announces that version with the two statuses, and adds one line of audit.
pub update_status_lem :
    (meanwhile : App → App) (now : ℕ) (i : Uuid) (status : EOrderStatus) (u : AuthUser) (w : App)
    → update_status meanwhile now i status u w ≡ (
        if is_staff u.roles
        then elim (find (has_id i) (orders_of w)) [
          | none ↦ (err (not_found (about "Order " i " not found")), w)
          | some o ↦ if same_status o.status status then (ok o, w) else (
            ok (with_status now status o),
            record (meanwhile w) {
              session = record (meanwhile w).session {
                db = record (meanwhile w).session.db {
                  orders = save_order (with_status now status o) (orders_of (meanwhile w));
                };
              };
              status_changes =
                  (meanwhile w).status_changes
                  ++ status_event o.status (with_status now status o) ∷ [];
              audit = (meanwhile w).audit ++ status_audit u (with_status now status o) ∷ [];
            },
          )
        ]
        else (err (forbidden (text "Only staff can change order status")), w))
unfolding update_status
update_status_lem meanwhile now i status u w = elim (Bool-cases (is_staff u.roles)) [
  | inr barred ↦ ground arith
  | inl able ↦ elim (Option-cases (find (has_id i) (orders_of w))) [
    | inl missing ↦ ground arith
    | inr (o, here) ↦ elim (Bool-cases (same_status o.status status)) [
      | inl same ↦ ground arith
      | inr other ↦ ground arith
    ]
  ]
]
