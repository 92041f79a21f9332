-- ===== src/Tx.antt =====
-- The transactions that the wallet tracks: the rows of engine/v2/transaction/txmodels and
-- engine/v2/database, the repository of engine/v2/database/repository/transactions.go, and the
-- callback of the miners' service in engine/v2/transaction/txsync.
pub mod Model
pub mod Repository
pub mod Sync
pub mod Frame
pub mod Callback
pub mod Applies
pub mod Sources
mod Tests
