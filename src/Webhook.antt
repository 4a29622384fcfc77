-- ===== src/Webhook.antt =====
-- The webhook: internal/webhook.
pub mod Server
pub mod SetName
pub mod Pin
pub mod Mutating
pub mod EndToEnd
