-- ===== src/PaymentService.antt =====
-- The payments microservice (src/payment-service): the status mapper, the service with its
-- transactions, and the gRPC controller that maps its errors.
pub mod Status
pub mod Service
pub mod Grpc
pub mod Atomic
pub mod Lifecycle
pub mod Outcomes
pub mod Errors
pub mod Ledger
pub mod Tables
pub mod Refinement
mod Tests
