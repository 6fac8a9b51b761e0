-- ===== src/Call.antt =====
-- frontend/call.js: the voice and video calls.
pub mod State
pub mod Sealing
pub mod Handlers
pub mod Tasks
pub mod Machine
pub mod Invariant
pub mod Secrecy
pub mod Endings
pub mod Races
pub mod Handshake
mod Tests
