-- ===== src/Format.antt =====
-- frontend/codeformat.js: code in messages.
pub mod Highlight
pub mod Splicing
pub mod Rules
pub mod Message
pub mod Plain
pub mod Injection
pub mod Markup
pub mod Substitution
pub mod Tokens
pub mod Escaping
pub mod Blocks
pub mod Placing
pub mod Placeholders
pub mod Safety
mod Tests
