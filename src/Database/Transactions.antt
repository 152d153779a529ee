-- ===== src/Database/Transactions.antt =====
-- The query runner of TypeORM as the services use it: `createQueryRunner`, `connect`,
-- `startTransaction`, `commitTransaction`, `rollbackTransaction`, `release`. A transaction works on
-- a copy of the tables; what it reads and writes is locked, so nothing else changes those rows
-- before it ends.
use e_commerce_order_platfor.Common.{ℕ, ◌+◌, Bool, Option, none, some, Action, is_some, or_default}
use e_commerce_order_platfor.Database.Entities.{Database}

pub record Session : Type 0 where
  -- What is committed.
  pub db : Database
  -- The copy of the open transaction.
  pub tx : Option Database
  -- Connections that went back to the pool with their transaction still open.
  pub stranded : ℕ

-- What the statements of the query runner read.
abbrev pub view : Session → Database
view s = or_default s.tx s.db

abbrev pub start_transaction : Session → Session
start_transaction s = record s { tx = some s.db }

abbrev pub commit : Session → Session
commit s = record s { db = view s; tx = none }

abbrev pub rollback : Session → Session
rollback s = record s { tx = none }

abbrev pub is_transaction_active : Session → Bool
is_transaction_active s = is_some s.tx

-- `if (qr.isTransactionActive) await qr.rollbackTransaction()` has the effect of `rollback`, which
-- changes nothing where no transaction is open. `release` does not end a transaction.
abbrev strand : Option Database → ℕ → ℕ
strand none n = n
strand (some d) n = n + 1

abbrev pub release : Session → Session
release s = record s { tx = none; stranded = strand s.tx s.stranded }

-- Statements of the transaction's manager.
abbrev pub in_tx : {A : Type 0} → Action Database A → Action Session A
in_tx m s = let (r, d) = m (view s) in (r, record s { tx = some d })
