-- ===== src/Ledger.antt =====
-- The tables that a recording writes: engine/v2/database/repository/operations.go, with the mapping of
-- a recorded transaction to rows and the hook of engine/v2/database/tracked_transaction.go, and the
-- look-up of outputs in repository/outputs.go.
pub mod Tables
pub mod Save
pub mod Backing
pub mod Rows
mod Tests
