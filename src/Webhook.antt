-- ===== src/Webhook.antt =====
-- internal/webhook: admission of pods and of the custom resources.
pub mod Pod
pub mod Validator
