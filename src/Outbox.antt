-- ===== src/Outbox.antt =====
-- The transactional outbox: src/outbox/outbox.service.ts and src/outbox/outbox-relay.service.ts.
pub mod Service
pub mod Claim
pub mod Relay
mod Tests
