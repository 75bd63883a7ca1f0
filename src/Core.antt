-- ===== src/Core.antt =====
-- app/core: rate limits, the security primitives, and the encryption of API keys.
pub mod RateLimit
pub mod Security
pub mod Encryption
