-- ===== src/Security.antt =====
-- src/security: session tokens and webhook signatures.
pub mod Crypto
pub mod Base64
pub mod Hex
pub mod Decimal
pub mod Session
pub mod Webhook
mod Tests
