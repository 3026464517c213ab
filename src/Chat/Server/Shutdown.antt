-- ===== src/Chat/Server/Shutdown.antt =====
-- Every slot of the UDP server holds the server's own descriptor (lab11/src/server.c, line 240). What
-- follows once that descriptor is closed: by the removal of one client, or at the start of
-- `server_stop`.
pub mod Silence
pub mod Removal
pub mod Last
use cs_os.Prelude.{
  ℕ, zero, suc, ◌≡◌, refl, sym, ◌∙◌, ap, ◌⊎◌, inl, inr, Bool, true, false, ◌||◌, not, Option, none,
  some, List, [], ◌∷◌, arith, ◌==◌, eq_ℤ, if◌then◌else◌, ℤ, pos, minus_one, leb, get_elem?, get_or,
  modify, for_range-keeps, for_range, if-keeps, Bool-cases, Option-cases, get_or_of_get_elem?,
}
use cs_os.Chat.CString.{cstr}
use cs_os.Chat.Message.{
  Message, MessageType, msg_list, msg_2all, msg_2one, msg_stop, sizeof_message,
}
use cs_os.Chat.Protocol.{SockAddr, Event, sent, closed, Log, Sendto, send_message_protocol}
use cs_os.Chat.Server.{
  ServerClient, Server, World, max_clients, client_at, no_client, find_client_by_id, vacate,
  remove_client,
}
use cs_os.Chat.Server.Delivery.{Attempt}

-- `close` was called on this descriptor. The server opens no other once it runs.
unfoldable pub is_closed : ℕ → Log → Bool
is_closed fd [] = false
is_closed fd (sent _ _ _ _ ∷ log) = is_closed fd log
is_closed fd (closed a ∷ log) = (a == fd) || is_closed fd log

-- The datagrams that went out whole, latest first.
unfoldable pub deliveries : Log → List Attempt
deliveries [] = []
deliveries (sent fd msg addr result ∷ log) =
    let rest = deliveries log in
    if eq_ℤ result (pos sizeof_message) then (fd, msg, addr) ∷ rest else rest
deliveries (closed _ ∷ log) = deliveries log

-- `sendto` on a closed descriptor fails with EBADF.
abbrev pub Ebadf : Sendto → Type 0
Ebadf sendto =
    (log : Log) (fd : ℕ) (msg : Message) (addr : SockAddr)
    → is_closed fd log ≡ true
    → sendto log fd msg addr ≡ minus_one

-- No descriptor but this one.
abbrev pub Only : ℕ → Option ℕ → Type 0
Only fd s = (s ≡ none) ⊎ (s ≡ some fd)

abbrev pub Share : ℕ → List ServerClient → Type 0
Share fd [] = Unit
Share fd (c ∷ cs) = Only fd c.socket_fd × Share fd cs

-- The descriptor of the server and of all its clients is closed, and this is all that was delivered.
pub record IsSilent (fd : ℕ) (delivered : List Attempt) (w : World) : Type 0 where
  pub socket : Only fd w.server_socket
  pub slots : Share fd w.clients
  pub shut : is_closed fd w.log ≡ true
  pub same : deliveries w.log ≡ delivered

-- A step of the log that neither opens the descriptor nor delivers.
pub record Quiet (fd : ℕ) (old new : Log) : Type 0 where
  pub still : is_closed fd old ≡ true → is_closed fd new ≡ true
  pub nothing : deliveries new ≡ deliveries old

pub Quiet-closed : (fd a : ℕ) (log : Log) → Quiet fd log (closed a ∷ log)
unfolding is_closed deliveries
Quiet-closed fd a log = record { still = λ h. ground arith; nothing = refl }

module _ {sendto : Sendto} (ebadf : Ebadf sendto) {fd : ℕ} where
  pub Quiet-send :
      (socket : Option ℕ) (msg : Message) (addr : Option SockAddr) (addr_len : ℕ) (log : Log)
      → Only fd socket
      → is_closed fd log ≡ true
      → Quiet fd log (send_message_protocol sendto socket msg addr addr_len log).1
  unfolding send_message_protocol is_closed deliveries
  Quiet-send none msg addr addr_len log o h = record { still = λ k. k; nothing = refl }
  Quiet-send (some a) msg none addr_len log o h = record { still = λ k. k; nothing = refl }
  Quiet-send (some a) msg (some addr) addr_len log o h = record {
    still = λ k. ground (arith, same, fails);
    nothing = ground (arith, same, fails);
  }
    where
      same : a ≡ fd
      same = ground arith

      fails : sendto log a msg addr ≡ minus_one
      fails = ebadf log a msg addr (rw same h)
