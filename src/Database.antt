-- ===== src/Database.antt =====
-- The database of the platform (src/database): the entities with their columns, the tables, and
-- the transactions of a query runner.
mod Entities
mod Transactions
pub use Entities.*
pub use Transactions.*
