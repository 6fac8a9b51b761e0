-- ===== src/Server.antt =====
-- The server that the pages speak to: internal/hub, internal/store and internal/models.
pub mod Message
pub mod Store
pub mod Hub
pub mod Joining
pub mod Rooms
pub mod Direct
pub mod Running
pub mod Sets
pub mod Membership
pub mod Privacy
pub mod Link
pub mod Delivery
pub mod Throttling
pub mod Restarting
pub mod Posting
pub mod Calling
pub mod Sending
pub mod Refusing
mod Tests
