-- ===== src/Tcp.antt =====
-- The chat of lab10: a server and its clients exchange fixed-size messages over TCP connections.
pub mod Stream
pub mod Server
pub mod System
pub mod Sound
pub mod Hang
pub mod Shutdown
pub mod Delivery
pub mod Start
pub mod Failure
pub mod Timeout
pub mod Client
mod Tests
