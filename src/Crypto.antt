-- ===== src/Crypto.antt =====
-- frontend/crypto.js: the keys of the end-to-end encryption.
pub mod Web
pub mod Manager
pub mod Life
pub mod Usages
pub mod Pinning
pub mod Reloading
pub mod Fingerprint
pub mod Clear
mod Tests
