-- ===== src/Runtime.antt =====
-- The state of the running application: its database session, the counters of src/metrics, the
-- events of src/orders/orders-events.service.ts and the lines of src/common/audit that it has
-- written. Also the calls of the payments service over gRPC, under rxjs's `timeout`.
use e_commerce_order_platfor.Common.{
  ℕ, String, Option, List, Action, Result, ok, err, Message, timeout_error, coded, ltb,
  if◌then◌else◌,
}
use e_commerce_order_platfor.Database.{Uuid, EOrderStatus, Session}

-- `OrderStatusChangedEvent` of src/orders/orders-events.types.ts.
pub record OrderStatusChangedEvent : Type 0 where
  pub order_id : Uuid
  pub version : ℕ
  pub from_status : EOrderStatus
  pub to_status : EOrderStatus
  pub changed_at : ℕ

pub data AuditAction : Type 0 where
  auth_login_failed payment_capture_requested order_status_override : AuditAction

pub data AuditOutcome : Type 0 where
  success failure denied : AuditOutcome

pub record AuditEvent : Type 0 where
  pub action : AuditAction
  pub actor_id : Option Uuid
  pub target_type : String
  pub target_id : Option Uuid
  pub outcome : AuditOutcome
  pub reason : Option Message

pub record App : Type 0 where
  pub session : Session
  pub orders_created : ℕ
  pub orders_failed : ℕ
  pub status_changes : List OrderStatusChangedEvent
  pub audit : List AuditEvent

abbrev pub on_session : (Session → Session) → App → App
on_session f w = record w { session = f w.session }

abbrev pub in_session : {A : Type 0} → Action Session A → Action App A
in_session m w = let (r, s) = m w.session in (r, record w { session = s })

-- How a call over gRPC ends, after how many milliseconds: with a message, with an error object
-- that carries a status code, or never.
pub data Reply (A : Type 0) : Type 0 where
  answer : ℕ → A → Reply A
  refused : ℕ → String → Reply A
  silent : Reply A

-- `lastValueFrom(call.pipe(timeout(ms)))`
abbrev pub await : {A : Type 0} → ℕ → Reply A → Result A
await ms (answer t a) = if ltb t ms then ok a else err timeout_error
await ms (refused t code) = if ltb t ms then err (coded code) else err timeout_error
await ms silent = err timeout_error
