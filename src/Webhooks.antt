-- ===== src/Webhooks.antt =====
-- engine/notifications and engine/model_webhook.go.
pub mod Model
pub mod Manager
pub mod Notifier
pub mod Consumer
pub mod Update
pub mod Serves
pub mod Sublists
pub mod Batches
pub mod Tests
