-- ===== src/Core.antt =====
-- Package core: the webhook handler, the webhook adapter and the secrets of an extension.
pub mod Platform
pub mod Extension
pub mod Api
pub mod Adapter
pub mod Webhooks
pub mod Mask
pub mod Secrets
