-- ===== src/Tcp/Client/Closing.antt =====
-- The descriptor of a client of lab10 (lab10/src/client.c): `client_connect`, and what is sent and
-- received.
use cs_os.Prelude.{
  ℕ, ◌+◌, ◌≡◌, refl, sym, ap, ◌∙◌, Bool, true, false, Option, none, some, List, ◌∷◌, arith,
  if◌then◌else◌, Bool-cases, Option-cases, inl, inr, eq_ℤ, minus_one,
}
use cs_os.Chat.Message.{Message, msg_list, msg_alive}
use cs_os.Tcp.Server.{Log, opened, closed, Network, close_fd}
use cs_os.Tcp.System.{is_open}
use cs_os.Tcp.Sound.{one, opens, IsClean}
use cs_os.Tcp.Sound.Operations.{IsSilent, send_to-IsSilent, close_fd-IsClean, close_fd-owned}
use cs_os.Tcp.Client.{
  Session, request, send_to_server, client_send_alive_response, handle_received_message,
  client_connect,
}
use cs_os.Tcp.Client.Connection.{Holds, opened-owned, silent-Holds}

module _ (net : Network) where
  pub send_to_server-Holds :
      (base : Log) (s : Session) (m : Message)
      → Holds base s
      → Holds base (send_to_server net s m).1
  unfolding send_to_server
  send_to_server-Holds base s m h =
      silent-Holds base _ s (send_to-IsSilent net s.server_socket m s.log) h

  pub handle_received_message-Holds :
      (base : Log) (now : ℕ) (s : Session) (m : Message)
      → Holds base s
      → Holds base (handle_received_message net now s m)
  unfolding handle_received_message client_send_alive_response
  handle_received_message-Holds base now s m h =
      elim m.type
        as (λ t.
          Holds base (elim t [ msg_alive ↦ (client_send_alive_response net now s).1 | _ ↦ s ])) [
            | msg_alive ↦ send_to_server-Holds base s _ h
            | _ ↦ h
          ]

  -- What `client_connect` leaves: a connection, or nothing that is open.
  pub client_connect-Holds :
      (inet_pton : List ℕ → Option ℕ) (socket : Option ℕ) (connected : Bool) (now : ℕ) (s : Session)
      → s.is_connected ≡ false
      → IsClean s.log
      → ((fd : ℕ) → socket ≡ some fd → is_open fd s.log ≡ false)
      → Holds s.log (client_connect net inet_pton socket connected now s).1
  unfolding client_connect close_fd
  client_connect-Holds inet_pton none connected now s idle clean new = record {
    clean = clean;
    owned = λ fd. rw idle (omega arith);
  }
  client_connect-Holds inet_pton (some a) connected now s idle clean new =
      elim (Option-cases (inet_pton s.server_ip)) [
        | inl e ↦ rw (e, client_connect) (lost _ (record { same = λ fd. refl; clean = λ c. c }))
        | inr (address, e) ↦ elim (Bool-cases connected) [
          | inr off ↦
              rw (e, off, client_connect) (lost _ (record { same = λ fd. refl; clean = λ c. c }))
          | inl on ↦
              elim (Bool-cases
                (eq_ℤ (send_to_server net made (request made.client msg_list now)).0 minus_one)) [
                  | inl fails ↦ rw (e, on, fails, client_connect) (lost _ said)
                  | inr works ↦ rw (e, on, works, client_connect) (held _ said)
                ]
        ]
      ]
    where
      made : Session
      made = record { client = record s.client { server_socket = some a }; log = opened a ∷ s.log }

      said : IsSilent made.log (send_to_server net made (request made.client msg_list now)).1.log
      said = unfold send_to_server in send_to-IsSilent net (some a) _ made.log

      open_made :
          (log : Log)
          → IsSilent made.log log
          → (fd : ℕ) → one (some a) fd + opens s.log fd ≡ opens log fd
      open_made log q fd =
          opened-owned s.log a (new a refl) fd ∙ ap (λ b. if b then 1 else 0) (sym (q.same fd))

      held :
          (log : Log)
          → IsSilent made.log log
          → Holds s.log (record {
            client = record made.client { is_connected = true; is_running = true };
            log = log;
          })
      held log q = record { clean = q.clean clean; owned = open_made log q }

      lost :
          (log : Log)
          → IsSilent made.log log
          → Holds s.log (record { client = made.client; log = closed a ∷ log })
      lost log q = record {
        clean = close_fd-IsClean (some a) log (opens s.log) (q.clean clean) (open_made log q);
        owned = λ fd.
            rw idle (omega (arith, close_fd-owned (some a) log (opens s.log) (open_made log q) fd));
      }
