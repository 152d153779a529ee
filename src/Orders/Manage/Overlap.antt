-- ===== src/Orders/Manage/Overlap.antt =====
-- Two changes of one status at once: `updateStatus` of src/orders/orders.service.ts reads the order without a
-- lock and writes the whole row later.
use e_commerce_order_platfor.Common.{
  ◌+◌, ◌≡◌, ap, ◌∙◌, true, false, some, ◌∷◌, [], ◌++◌, append_assoc, find, find_holds, refl, any,
  List, ◌==◌,
}
use e_commerce_order_platfor.Database.{Uuid, Order, same_status}
use e_commerce_order_platfor.Runtime.{App, OrderStatusChangedEvent}
use e_commerce_order_platfor.Auth.{is_staff}
use e_commerce_order_platfor.Orders.Manage.{
  has_id, orders_of, save_order, update_status, with_status,
}
use e_commerce_order_platfor.Orders.Manage.Access.{update_status_lem}
use e_commerce_order_platfor.Orders.Manage.Versions.{
  StatusCall, run_call, find-present, replaced_same,
}

saved_is_found :
    (k : Uuid) (saved o : Order) (os : List Order)
    → saved.id ≡ o.id
    → (saved.id == k) ≡ true
    → find (has_id k) os ≡ some o
    → find (has_id k) (save_order saved os) ≡ some saved
saved_is_found k saved o os same mine here =
    let present : any (has_id saved.id) os ≡ true = rw same (find-present k o os here) in
    rw present (replaced_same k saved o os mine here)

-- What a call announces of the order that it read.
abbrev pub announced_by : StatusCall → Order → OrderStatusChangedEvent
announced_by c o = record {
  order_id = o.id;
  version = o.status_version + 1;
  from_status = o.status;
  to_status = c.status;
  changed_at = c.now;
}

-- Two calls of `updateStatus` by staff for one order, where the first reads the order and the second then
-- runs as a whole before the first writes, and where both statuses differ from the one the order has: both
-- announce the same version, from the same status; and the order keeps the status of the first, at that
-- version, as if the second had not been.
pub overlapping_calls_repeat :
    (first second : StatusCall) (w : App) (o : Order)
    → find (has_id first.order_id) (orders_of w) ≡ some o
    → second.order_id ≡ first.order_id
    → is_staff first.user.roles ≡ true
    → is_staff second.user.roles ≡ true
    → same_status o.status first.status ≡ false
    → same_status o.status second.status ≡ false
    → let w' =
        (update_status (run_call second) first.now first.order_id first.status first.user w).1 in
      (w'.status_changes ≡ (w.status_changes ++ announced_by second o ∷ announced_by first o ∷ []))
      × (find (has_id first.order_id) (orders_of w')
          ≡ some (record o {
            status = first.status;
            status_version = o.status_version + 1;
            updated_at = first.now;
          }))
overlapping_calls_repeat first second w o here same able able' new new' =
    let i = first.order_id in
    let saved1 = with_status first.now first.status o in
    let saved2 = with_status second.now second.status o in
    let here' : find (has_id second.order_id) (orders_of w) ≡ some o =
      ap (λ k. find (has_id k) (orders_of w)) same ∙ here in
    let run2 =
      ap (λ r. r.1)
        (update_status_lem (λ x. x) second.now second.order_id second.status second.user w) in
    let w2 = run_call second w in
    let changes2 : w2.status_changes ≡ (w.status_changes ++ announced_by second o ∷ []) =
      ap (λ (x : App). x.status_changes) run2 ∙ rw (able', here', new') refl in
    let orders2 : orders_of w2 ≡ save_order saved2 (orders_of w) =
      ap orders_of run2 ∙ rw (able', here', new') refl in
    let run1 =
      ap (λ r. r.1) (update_status_lem (run_call second) first.now i first.status first.user w) in
    let w' = (update_status (run_call second) first.now i first.status first.user w).1 in
    let changes1 : w'.status_changes ≡ (w2.status_changes ++ announced_by first o ∷ []) =
      ap (λ (x : App). x.status_changes) run1 ∙ rw (able, here, new) refl in
    let orders1 : orders_of w' ≡ save_order saved1 (orders_of w2) =
      ap orders_of run1 ∙ rw (able, here, new) refl in
    let mine : (o.id == i) ≡ true = find_holds (has_id i) (orders_of w) o here in
    let found2 : find (has_id i) (orders_of w2) ≡ some saved2 =
      ap (find (has_id i)) orders2 ∙ saved_is_found i saved2 o (orders_of w) refl mine here in
    (
      changes1
          ∙ ap (λ es. es ++ announced_by first o ∷ []) changes2
          ∙ append_assoc w.status_changes (announced_by second o ∷ []) (announced_by first o ∷ []),
      ap (find (has_id i)) orders1 ∙ saved_is_found i saved1 saved2 (orders_of w2) refl mine found2,
    )
