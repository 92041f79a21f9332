-- ===== src/Draft.antt =====
-- The amounts of a draft transaction of the first version: engine/model_draft_transactions.go and engine/utils/fees.go.
pub mod Model
pub mod Change
pub mod Balance
pub mod Tests
