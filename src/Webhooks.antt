-- ===== src/Webhooks.antt =====
-- The webhooks (src/modules/webhooks).
pub mod Schedule
pub mod Delivery
pub mod Attempts
pub mod Signer
pub mod Endpoints
pub mod Sending
