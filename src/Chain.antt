-- ===== src/Chain.antt =====
-- engine/chain/internal: the broadcast to the miners' service and the combination of sources of
-- transactions.
pub mod Broadcast
pub mod Answers
pub mod Getters
pub mod Fetched
pub mod Tests
