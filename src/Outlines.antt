-- ===== src/Outlines.antt =====
-- Transaction outlines: engine/v2/transaction/outlines, with the answer of a paymail host as
-- engine/paymail/paymail_service_client.go checks it. A specification is evaluated to annotated
-- outputs, the selector of `Utxo` funds them, and the change becomes an output.
pub mod Model
pub mod Paymail
pub mod OpReturn
pub mod Evaluate
pub mod Sums
pub mod Funds
pub mod Indexes
mod Tests
