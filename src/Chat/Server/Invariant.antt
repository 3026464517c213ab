-- ===== src/Chat/Server/Invariant.antt =====
-- The invariant of the server's table (lab11/src/server.c), and that every operation keeps it.
mod Updates
mod Requests
pub mod Runs
pub use Updates.{
  IsValid, kept-IsValid, touch-IsValid, miss-IsValid, miss-IsQuiet, dismiss-IsValid, enter-IsValid,
  vacate-IsValid, add_client_udp-IsValid, remove_client-IsValid,
}
pub use Requests.{
  handle_message_directly-IsValid, register-IsValid, dispatch-IsValid, sweep-IsValid,
}
