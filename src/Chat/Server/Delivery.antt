-- ===== src/Chat/Server/Delivery.antt =====
-- Who is sent what: the datagrams of a broadcast and of a private message (lab11/src/server.c).
use cs_os.Prelude.{
  ℕ, ◌<◌, ◌≡◌, refl, ◌∙◌, ap, true, ◌&&◌, not, some, List, [], ◌∷◌, ◌++◌, arith, if◌then◌else◌,
  get_elem?, append_assoc, map, NoneOf, get_or_of_get_elem?, First-not-NoneOf, find_index-cases,
  inl, inr, Bool-cases,
}
use mathlib.Core.List.{reverse, reverse-cons}
use cs_os.Chat.CString.{cstr, str_eq}
use cs_os.Chat.Message.{Message, msg_broadcast, msg_private, create_message}
use cs_os.Chat.Protocol.{
  SockAddr, sizeof_sockaddr, sent, closed, Log, Sendto, send_message_protocol,
}
use cs_os.Chat.Server.{ServerClient, World, no_client, is_called, find_client_by_id}
use cs_os.Chat.Server.Handlers.{send_others, handle_2all_request_udp, handle_2one_request_udp}
use cs_os.Chat.Server.Table.{IsTable, find_client_by_id-called}

-- The calls of `sendto` in a log, without their results, latest first.
abbrev pub Attempt : Type 0
Attempt = ℕ × Message × SockAddr

unfoldable pub attempts : Log → List Attempt
attempts [] = []
attempts (sent fd msg addr result ∷ log) = (fd, msg, addr) ∷ attempts log
attempts (closed fd ∷ log) = attempts log

-- A call with a descriptor and an address makes one attempt, whatever comes of it.
pub attempts-send_message_protocol :
    (sendto : Sendto) (fd : ℕ) (msg : Message) (addr : SockAddr) (addr_len : ℕ) (log : Log)
    → 0 < addr_len
    → attempts (send_message_protocol sendto (some fd) msg (some addr) addr_len log).1
      ≡ (fd, msg, addr) ∷ attempts log
unfolding send_message_protocol attempts
attempts-send_message_protocol sendto fd msg addr addr_len log h = ground arith

-- The addresses of the active clients under another name, in the order of the table.
unfoldable pub others : List ℕ → List ServerClient → List SockAddr
others sender [] = []
others sender (c ∷ cs) =
    if c.is_active && not (str_eq c.client_id sender)
    then c.addr ∷ others sender cs
    else others sender cs

module _ (sendto : Sendto) (fd : ℕ) where
  to_each : Message → List SockAddr → List Attempt
  to_each msg = map λ addr. (fd, msg, addr)

  attempts-send_others :
      (sender : List ℕ) (msg : Message) (cs : List ServerClient) (log : Log)
      → attempts (send_others sendto (some fd) sender msg cs log)
        ≡ reverse (to_each msg (others sender cs)) ++ attempts log
  unfolding send_others others to_each
  attempts-send_others sender msg [] log = refl
  attempts-send_others sender msg (c ∷ cs) log =
      elim (Bool-cases (c.is_active && not (str_eq c.client_id sender))) [
        | inr skip ↦ rw (skip, send_others) (attempts-send_others sender msg cs log)
        | inl on ↦
            rw (on, send_others)
              (attempts-send_others sender msg cs _
                ∙ ap (λ l. reverse (to_each msg (others sender cs)) ++ l)
                    (attempts-send_message_protocol sendto fd msg c.addr sizeof_sockaddr log
                      (omega arith))
                ∙ regroup (to_each msg (others sender cs)) (fd, msg, c.addr) (attempts log))
      ]
    where
      regroup :
          (xs : List Attempt) (x : Attempt) (ys : List Attempt)
          → reverse xs ++ (x ∷ ys) ≡ reverse (x ∷ xs) ++ ys
      regroup xs x ys = rw (reverse-cons, append_assoc)

  -- A broadcast makes one attempt for each active client under another name than the sender's, to
  -- that client's address, in the order of the table, and no other; it leaves the table alone.
  pub handle_2all_request_udp_lem :
      (now : ℕ) (w : World) (msg : Message)
      → w.server_socket ≡ some fd
      → let w' = handle_2all_request_udp sendto now w msg in
        let m =
          create_message msg_broadcast (some msg.sender_id) (some []) (some msg.content) now in
        (attempts w'.log
          ≡ reverse (map (λ addr. (fd, m, addr)) (others msg.sender_id w.clients))
            ++ attempts w.log)
        × (w'.server ≡ w.server)
  unfolding handle_2all_request_udp to_each
  handle_2all_request_udp_lem now w msg e =
      (rw e (attempts-send_others msg.sender_id _ w.clients w.log), refl)

  -- A private message makes one attempt, to the address of the active client that has the
  -- recipient's name.
  pub handle_2one_request_udp-found :
      (now : ℕ) (w : World) (msg : Message) (k : ℕ) (c : ServerClient)
      → IsTable w.clients
      → w.server_socket ≡ some fd
      → get_elem? w.clients k ≡ some c
      → c.is_active ≡ true
      → cstr c.client_id ≡ cstr msg.recipient_id
      → let w' = handle_2one_request_udp sendto now w msg in
        let m =
          create_message msg_private
            (some msg.sender_id)
            (some msg.recipient_id)
            (some msg.content)
            now in
        (attempts w'.log ≡ (fd, m, c.addr) ∷ attempts w.log) × (w'.server ≡ w.server)
  unfolding handle_2one_request_udp
  handle_2one_request_udp-found now w msg k c t s e on name =
      let found = find_client_by_id-called w.server msg.recipient_id k c t e on name in
      let at = get_or_of_get_elem? w.clients k c no_client e in
      rw (found, handle_2one_request_udp)
        (rw (s, at)
          (
            attempts-send_message_protocol sendto fd _ c.addr sizeof_sockaddr w.log (omega arith),
            refl,
          ))

-- Where no active client has the recipient's name, nothing is sent and nothing changes.
pub handle_2one_request_udp-missing :
    (sendto : Sendto) (now : ℕ) (w : World) (msg : Message)
    → NoneOf (is_called msg.recipient_id) w.clients
    → handle_2one_request_udp sendto now w msg ≡ w
unfolding handle_2one_request_udp find_client_by_id
handle_2one_request_udp-missing sendto now w msg n =
    elim (find_index-cases (is_called msg.recipient_id) w.clients) [
      | inl (_, e) ↦ rw (e, handle_2one_request_udp)
      | inr (k, f, _) ↦ absurd (First-not-NoneOf _ w.clients k f n)
    ]
