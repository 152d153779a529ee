-- ===== src/Orders/Manage.antt =====
-- The operations of `OrdersService` of src/orders/orders.service.ts on orders that exist. A query reads
-- what is committed.
pub mod Access
pub mod Versions
pub mod Overlap
use e_commerce_order_platfor.Common.{
  ⊤, ℕ, ◌+◌, String, Bool, true, false, not, ◌&&◌, ◌||◌, Option, none, some, List, [], ◌∷◌, ◌++◌,
  Action, pure, throw, throw_if, gets, modify, or_throw, ◌>>=◌, ◌>>◌, Result, ok, err, Message,
  text, about, Exception, forbidden, not_found, coded, find, any, update_where, delete_where, ◌==◌,
  if◌then◌else◌,
}
use e_commerce_order_platfor.Database.{
  Uuid, EOrderStatus, Order, OrderItem, Database, Session, same_status,
}
use e_commerce_order_platfor.Runtime.{
  App, on_session, OrderStatusChangedEvent, AuditEvent, order_status_override, AuditOutcome,
}
use e_commerce_order_platfor.Auth.{AuthUser, is_staff}

abbrev pub has_id : Uuid → Order → Bool
has_id i o = o.id == i

abbrev pub orders_of : App → List Order
orders_of w = w.session.db.orders

abbrev pub on_orders : (List Order → List Order) → App → App
on_orders f w = record w {
  session = record w.session { db = record w.session.db { orders = f w.session.db.orders } };
}

-- The WHERE clause of `findOne`: staff read every order.
abbrev pub may_read : AuthUser → Order → Bool
may_read u o = is_staff u.roles || o.user_id == u.sub

unfoldable pub find_one : AuthUser → Uuid → Action App Order
find_one u i = do
  order ← gets (λ w. find (λ o. has_id i o && may_read u o) (orders_of w))
  or_throw order (not_found (text "Order not found"))

abbrev pub item_of : Uuid → OrderItem → Bool
item_of i x = x.order_id == i

abbrev pub without_order : Uuid → Database → Database
without_order i d = record d {
  orders = delete_where (has_id i) d.orders;
  payments = delete_where (λ x. x.order_id == i) d.payments;
  processed_messages = delete_where (λ x. x.order_id == i) d.processed_messages;
}

-- `delete`. The payments of the order and its processed messages go with it; an item of the order
-- restricts the delete (src/database/entities/order-item.entity.ts).
unfoldable pub delete : Uuid → Action App ⊤
delete i = do
  affected ← gets (λ w. any (has_id i) (orders_of w))
  restricted ← gets (λ w. any (item_of i) w.session.db.order_items)
  throw_if (affected && restricted) (coded "23503")
  modify (λ w. record w { session = record w.session { db = without_order i w.session.db } })
  throw_if (not affected) (not_found (text "Order not found"))

-- `assertCanAccessOrder`
abbrev pub assert_can_access_order : Order → AuthUser → Action App ⊤
assert_can_access_order o u = throw_if (not (may_read u o)) (forbidden (text "Access denied"))

unfoldable pub can_subscribe_to_order : Uuid → AuthUser → Action App ⊤
can_subscribe_to_order i u = do
  found ← gets (λ w. find (has_id i) (orders_of w))
  order ← or_throw found (not_found (text "Order not found"))
  assert_can_access_order order u

-- The row that `save` writes.
abbrev pub with_status : ℕ → EOrderStatus → Order → Order
with_status now status o = record o {
  status = status;
  status_version = o.status_version + 1;
  updated_at = now;
}

abbrev pub status_event : EOrderStatus → Order → OrderStatusChangedEvent
status_event from_status saved = record {
  order_id = saved.id;
  version = saved.status_version;
  from_status = from_status;
  to_status = saved.status;
  changed_at = saved.updated_at;
}

abbrev pub status_audit : AuthUser → Order → AuditEvent
status_audit u saved = record {
  action = order_status_override;
  actor_id = some u.sub;
  target_type = "order";
  target_id = some saved.id;
  outcome = AuditOutcome.success;
  reason = some (text "manual_status_change");
}

-- `save` of a whole row: TypeORM looks for the row by its id, and inserts it where it is gone.
abbrev pub save_order : Order → List Order → List Order
save_order saved os =
    if any (has_id saved.id) os
    then update_where (has_id saved.id) (λ o. saved) os
    else os ++ saved ∷ []

-- The write, the event, and the line of the audit. The row was read without a lock: `meanwhile` is what
-- others commit between the read and the write.
abbrev pub change_status :
    (meanwhile : App → App) → ℕ → EOrderStatus → AuthUser → Order → Action App Order
change_status meanwhile now status u order = do
  modify meanwhile
  let saved = with_status now status order
  modify (on_orders (save_order saved))
  modify
      (λ w. record w { status_changes = w.status_changes ++ status_event order.status saved ∷ [] })
  modify (λ w. record w { audit = w.audit ++ status_audit u saved ∷ [] })
  pure saved

unfoldable pub update_status :
    (meanwhile : App → App) → ℕ → Uuid → EOrderStatus → AuthUser → Action App Order
update_status meanwhile now i status u = do
  throw_if (not (is_staff u.roles)) (forbidden (text "Only staff can change order status"))
  found ← gets (λ w. find (has_id i) (orders_of w))
  order ← or_throw found (not_found (about "Order " i " not found"))
  if same_status order.status status then pure order else change_status meanwhile now status u order
