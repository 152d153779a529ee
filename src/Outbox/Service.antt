-- ===== src/Outbox/Service.antt =====
-- `OutboxService` of src/outbox/outbox.service.ts, on the tables of the manager that it is given.
use e_commerce_order_platfor.Common.{
  ℕ, ◌+◌, String, Bool, true, false, ◌&&◌, not, Option, none, some, List, [], ◌∷◌, ◌++◌, Action,
  gets, modify, pure, ◌>>◌, Message, or_default, ltb, leb, ◌==◌, if◌then◌else◌, select, take,
  update_where,
}
use e_commerce_order_platfor.Database.{
  Uuid, EOutboxEventStatus, EventType, Payload, OutboxEvent, Database,
}

abbrev pub event_has_id : Uuid → OutboxEvent → Bool
event_has_id i e = e.id == i

-- The new row, its id and its time being the database's.
abbrev pub new_event : Uuid → ℕ → String → Uuid → EventType → Payload → OutboxEvent
new_event fresh now aggregate_type aggregate_id event_type payload = record {
  id = fresh;
  aggregate_type = aggregate_type;
  aggregate_id = aggregate_id;
  event_type = event_type;
  payload = payload;
  status = EOutboxEventStatus.pending;
  attempts = 0;
  next_retry_at = some now;
  last_error = none;
  sent_at = none;
  created_at = now;
}

unfoldable pub add : Uuid → ℕ → String → Uuid → EventType → Payload → Action Database OutboxEvent
add fresh now aggregate_type aggregate_id event_type payload = do
  let message = new_event fresh now aggregate_type aggregate_id event_type payload
  modify (λ d. record d { outbox_events = d.outbox_events ++ message ∷ [] })
  pure message

-- `rabbitMq.outboxRelayBatchSize` and `rabbitMq.maxAttempts`, where they are set.
pub record OutboxConfig : Type 0 where
  pub outbox_relay_batch_size : Option ℕ
  pub max_attempts : Option ℕ

abbrev pub is_waiting : EOutboxEventStatus → Bool
is_waiting EOutboxEventStatus.pending = true
is_waiting EOutboxEventStatus.failed = true
is_waiting EOutboxEventStatus.sent = false

-- `next_retry_at IS NULL OR next_retry_at <= now()`
abbrev pub is_due : ℕ → Option ℕ → Bool
is_due now none = true
is_due now (some t) = leb t now

-- The WHERE clause of `claimBatch`.
abbrev pub is_claimable : ℕ → ℕ → OutboxEvent → Bool
is_claimable max_attempts now e =
    is_waiting e.status && (ltb e.attempts max_attempts && is_due now e.next_retry_at)

-- ORDER BY created_at ASC; rows of one time keep the order of the table.
abbrev pub insert_event : OutboxEvent → List OutboxEvent → List OutboxEvent
insert_event e [] = e ∷ []
insert_event e (x ∷ xs) =
    let later = x ∷ insert_event e xs in if leb e.created_at x.created_at then e ∷ x ∷ xs else later

abbrev pub order_by_created_at : List OutboxEvent → List OutboxEvent
order_by_created_at [] = []
order_by_created_at (x ∷ xs) = insert_event x (order_by_created_at xs)

-- `skip_locked` passes over the rows that other transactions hold.
unfoldable pub claim_batch :
    OutboxConfig → (Uuid → Bool) → ℕ → Option ℕ → Action Database (List OutboxEvent)
claim_batch config locked now limit = do
  let batch_size = or_default limit (or_default config.outbox_relay_batch_size 50)
  let max_attempts = or_default config.max_attempts 3
  gets (λ d. take batch_size (
      order_by_created_at
        (select (λ e. is_claimable max_attempts now e && not (locked e.id)) d.outbox_events)))

abbrev pub as_sent : ℕ → OutboxEvent → OutboxEvent
as_sent now e = record e { status = EOutboxEventStatus.sent; last_error = none; sent_at = some now }

abbrev pub as_failed : Option Message → Option ℕ → OutboxEvent → OutboxEvent
as_failed last_error next_retry_at e = record e {
  last_error = last_error;
  next_retry_at = next_retry_at;
  status = EOutboxEventStatus.failed;
  attempts = e.attempts + 1;
}

unfoldable pub mark_sent : ℕ → Uuid → Database → Database
mark_sent now i d = record d {
  outbox_events = update_where (event_has_id i) (as_sent now) d.outbox_events;
}

unfoldable pub mark_failed : Uuid → Option Message → Option ℕ → Database → Database
mark_failed i last_error next_retry_at d = record d {
  outbox_events =
      update_where (event_has_id i) (as_failed last_error next_retry_at) d.outbox_events;
}
