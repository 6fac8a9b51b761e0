-- ===== src/Chat.antt =====
-- frontend/app.js: the conversations, the server's messages, the commands and the connection.
pub mod State
pub mod Store
pub mod Views
pub mod Messages
pub mod Commands
pub mod Disappearing
pub mod Connection
pub mod Submit
pub mod Rendering
pub mod Session
pub mod History
pub mod Receipts
pub mod Statuses
pub mod Expiry
pub mod Reconnecting
pub mod Keys
pub mod Wire
pub mod Avatars
pub mod Lists
pub mod Presence
pub mod Badges
pub mod Images
pub mod Uploads
pub mod Start
pub mod Saving
pub mod Element
pub mod Rejoining
pub mod Emoji
pub mod Overlays
mod Tests
