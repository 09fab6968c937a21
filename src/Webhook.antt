-- ===== src/Webhook.antt =====
-- internal/webhook: the admission webhooks for pods.
pub mod Validator
pub mod Mutator
pub mod Configuration
