-- ===== src/Js.antt =====
-- The JavaScript standard library that the front end leans on.
pub mod Text
pub mod Dict
pub mod Scan
