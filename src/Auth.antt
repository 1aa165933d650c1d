-- ===== src/Auth.antt =====
-- pkg/auth: the verification of API keys with its cache, the key store, and the check of requests.
pub mod Verifier
pub mod Keystore
pub mod Middleware
pub mod Cache
pub mod Access
