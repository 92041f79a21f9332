-- ===== src/Record.antt =====
-- The recording of transactions: engine/v2/transaction/record, over the new rows of
-- engine/v2/transaction/txmodels. A flow collects the rows and the operations of the users; then
-- the recipient is notified, the transaction is broadcast, and the operations are saved.
pub mod Model
pub mod Addresses
pub mod Flow
pub mod Outputs
pub mod Service
pub mod Guards
pub mod Effects
pub mod Sets
mod Tests
