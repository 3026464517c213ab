-- ===== src/Chat.antt =====
-- The chat of lab11: a server and its clients exchange fixed-size messages over UDP.
pub mod CString
mod Tests
pub mod Message
pub mod Protocol
pub mod Server
pub mod Client
