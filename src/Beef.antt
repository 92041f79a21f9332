-- ===== src/Beef.antt =====
-- engine/v2/transaction/beef, and the search for input sources in
-- engine/v2/database/repository/transactions.go.
pub mod Search
pub mod Visits
pub mod Ancestors
pub mod Resolver
pub mod Resolves
pub mod Prepares
pub mod Tests
