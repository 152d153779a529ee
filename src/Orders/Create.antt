-- ===== src/Orders/Create.antt =====
-- Creation of an order, `OrdersService.create` of src/orders/orders.service.ts: its steps, the
-- transaction around them, and what it guarantees.
pub mod Steps
pub mod Flow
pub mod Parts
pub mod Stock
pub mod Guard
pub mod Totals
pub mod Idempotency
pub mod Responses
pub mod Ledger
pub mod Atomicity
pub mod Endpoint
mod Tests
