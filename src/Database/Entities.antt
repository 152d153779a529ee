-- ===== src/Database/Entities.antt =====
-- The entities (src/database/entities/*.ts) and the tables that hold them. A uuid is only compared,
-- so it is a number; `numeric(12, 2)` is a whole number of cents; `timestamptz` is milliseconds
-- (a `created_at` is what the column holds: Pagination and Graphql count it in microseconds).
-- The relations to other entities are their id columns.
use e_commerce_order_platfor.Common.{ℕ, String, Bool, true, false, Option, List, Message}
use e_commerce_order_platfor.Common.Int.{ℤ}

abbrev pub Uuid : Type 0
Uuid = ℕ

pub data EOrderStatus : Type 0 where
  pending paid shipped cancelled processed : EOrderStatus

pub data EPaymentStatus : Type 0 where
  unpaid pending paid failed refunded : EPaymentStatus

pub data EOutboxEventStatus : Type 0 where
  pending sent failed : EOutboxEventStatus

pub data EFileStatus : Type 0 where
  pending ready failed : EFileStatus

pub data EFileVisibility : Type 0 where
  private public : EFileVisibility

pub data EFileOwnerType : Type 0 where
  user order product payment : EFileOwnerType

pub record User : Type 0 where
  pub id : Uuid
  pub first_name : String
  pub last_name : String
  pub email : String
  pub password_hash : Option String
  pub roles : List String
  pub scopes : List String
  pub is_active : Bool
  pub avatar_file_id : Option Uuid
  pub created_at : ℕ

pub record Product : Type 0 where
  pub id : Uuid
  pub name : String
  pub price : ℕ
  pub description : String
  pub stock : ℕ
  pub created_at : ℕ
  pub updated_at : ℕ

pub record Order : Type 0 where
  pub id : Uuid
  pub status : EOrderStatus
  pub items_subtotal : ℕ
  pub items_discount_total : ℕ
  pub shipping_amount : ℕ
  pub order_discount_amount : ℕ
  pub total_amount : ℤ
  pub idempotency_key : Uuid
  pub user_id : Uuid
  pub status_version : ℕ
  pub created_at : ℕ
  pub updated_at : ℕ
  pub processed_at : Option ℕ

pub record OrderItem : Type 0 where
  pub id : Uuid
  pub unit_price : ℕ
  pub discount_amount : ℕ
  pub quantity : ℕ
  pub order_id : Uuid
  pub product_id : Uuid

pub record Payment : Type 0 where
  pub id : Uuid
  pub status : EPaymentStatus
  pub order_id : Uuid
  pub paid_at : Option ℕ
  pub paid_amount : ℤ
  pub idempotency_key : Uuid

-- The message of the processing queue (src/orders/orders-queue.types.ts); an absent `attempt` is
-- `none`, and `simulate` holds when it is 'alwaysFail'.
pub record OrdersProcessMessage : Type 0 where
  pub message_id : Uuid
  pub order_id : Uuid
  pub created_at : ℕ
  pub attempt : Option ℕ
  pub simulate : Bool

-- `OrderEventEnvelopeV1` (src/orders/orders-kafka-events.types.ts), its `order` field flattened.
pub record OrderEventEnvelopeV1 : Type 0 where
  pub event_id : Uuid
  pub event_name : String
  pub occurred_at : ℕ
  pub order_id : Uuid
  pub user_id : Uuid
  pub total_amount : ℤ
  pub currency : String

-- The payloads that the program stores in the outbox.
pub data Payload : Type 0 where
  process_message : OrdersProcessMessage → Payload
  order_event : OrderEventEnvelopeV1 → Payload

pub data EventType : Type 0 where
  order_process_requested order_placed : EventType
  other : String → EventType

pub record OutboxEvent : Type 0 where
  pub id : Uuid
  pub aggregate_type : String
  pub aggregate_id : Uuid
  pub event_type : EventType
  pub payload : Payload
  pub status : EOutboxEventStatus
  pub attempts : ℕ
  pub next_retry_at : Option ℕ
  pub last_error : Option Message
  pub sent_at : Option ℕ
  pub created_at : ℕ

pub record ProcessedMessage : Type 0 where
  pub id : Uuid
  pub message_id : Uuid
  pub order_id : Uuid
  pub handler : String

pub record FileRecord : Type 0 where
  pub id : Uuid
  pub owner_type : EFileOwnerType
  pub owner_id : Uuid
  pub uploaded_by_user_id : Option Uuid
  pub bucket : String
  pub key : String
  pub mime_type : String
  pub size : ℕ
  pub status : EFileStatus
  pub original_name : String
  pub visibility : EFileVisibility
  pub created_at : ℕ
  pub updated_at : ℕ

pub record ProductImage : Type 0 where
  pub id : Uuid
  pub product_id : Uuid
  pub file_id : Uuid
  pub sort_order : ℕ
  pub is_primary : Bool
  pub created_at : ℕ
  pub updated_at : ℕ

pub record Database : Type 0 where
  pub users : List User
  pub products : List Product
  pub orders : List Order
  pub order_items : List OrderItem
  pub payments : List Payment
  pub outbox_events : List OutboxEvent
  pub processed_messages : List ProcessedMessage
  pub files : List FileRecord
  pub product_images : List ProductImage

-- `a === b` on statuses.
abbrev pub same_status : EOrderStatus → EOrderStatus → Bool
same_status EOrderStatus.pending EOrderStatus.pending = true
same_status EOrderStatus.paid EOrderStatus.paid = true
same_status EOrderStatus.shipped EOrderStatus.shipped = true
same_status EOrderStatus.cancelled EOrderStatus.cancelled = true
same_status EOrderStatus.processed EOrderStatus.processed = true
same_status a b = false
