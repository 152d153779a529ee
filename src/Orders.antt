-- ===== src/Orders.antt =====
-- The orders module (src/orders): creation of orders, their status, and the worker that processes
-- them.
pub mod Create
pub mod Processor
pub mod Manage
pub mod Deletion
mod Tests
