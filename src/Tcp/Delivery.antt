-- ===== src/Tcp/Delivery.antt =====
-- Who is sent what by lab10/src/server.c, and what becomes of a client without a thread.
use cs_os.Prelude.{
  ℕ, ◌+◌, ◌≤◌, ◌≡◌, refl, ap, ◌∙◌, Bool, true, false, ◌&&◌, not, Option, none, some, List, [], ◌∷◌,
  arith, ◌==◌, ==_iff, if◌then◌else◌,
}
use cs_os.Chat.Message.{Message}
use cs_os.Chat.Server.{ServerClient}
use cs_os.Chat.Server.Spare.{same_socket}
use cs_os.Tcp.Server.{World, Log, sent, Network, send_to}
use cs_os.Tcp.Server.Handlers.{send_other_clients, broadcast_message}
use cs_os.Tcp.Sound.{Sound, one, held}

-- The number of calls of `send_message_protocol` on a descriptor.
abbrev pub sends : ℕ → Log → ℕ
sends fd [] = 0
sends fd (sent a m r ∷ log) = (if fd == a then 1 else 0) + sends fd log
sends fd (_ ∷ log) = sends fd log

module _ (net : Network) where
  send-sends :
      (m : Message) (socket a : ℕ) (log : Log) (on : Bool) (o : Option ℕ)
      → sends a (if on && not (same_socket o (some socket)) then (send_to net o m log).1 else log)
        ≡ (if a == socket then 0 else if on then one o a else 0) + sends a log
  unfolding same_socket send_to
  send-sends m socket a log false o = ground arith
  send-sends m socket a log true none = ground arith
  send-sends m socket a log true (some b) = ground (arith, ==_iff b socket, ==_iff a b)

  send_other_clients-sends :
      (m : Message) (socket a : ℕ) (cs : List ServerClient) (log : Log)
      → sends a (send_other_clients net m (some socket) cs log)
        ≡ (if a == socket then 0 else held cs a) + sends a log
  unfolding send_other_clients
  send_other_clients-sends m socket a [] log = ground arith
  send_other_clients-sends m socket a (c ∷ cs) log =
      send_other_clients-sends m socket a cs _
      ∙ ap (◌+◌ (if a == socket then 0 else held cs a))
          (send-sends m socket a log c.is_active c.socket_fd)
      ∙ both (a == socket) (if c.is_active then one c.socket_fd a else 0) (held cs a) (sends a log)
    where
      both :
          (b : Bool) (x y z : ℕ)
          → (if b then 0 else y) + ((if b then 0 else x) + z) ≡ (if b then 0 else x + y) + z
      both true x y z = omega arith
      both false x y z = omega arith

  -- In a sound state a broadcast calls `send_message_protocol` once on the descriptor of each
  -- active slot but the sender's, not at all on the sender's or on any other descriptor, and leaves
  -- the server as it is.
  pub broadcast_message-sends :
      (p : Option ℕ) (w : World) (m : Message) (socket a : ℕ)
      → Sound p w
      → ((broadcast_message net w m (some socket)).server ≡ w.server)
        × (sends a (broadcast_message net w m (some socket)).log
            ≡ (if a == socket then 0 else held w.clients a) + sends a w.log)
        × (held w.clients a ≤ 1)
  unfolding broadcast_message
  broadcast_message-sends p w m socket a s =
      (refl, send_other_clients-sends m socket a w.clients w.log, ground (arith, s.owned a))
