-- ===== src/Tcp/Sound/Admission.antt =====
-- Letting clients in and stopping (lab10/src/server.c) keep the table and the descriptors.
use cs_os.Prelude.{
  ℕ, ◌+◌, ◌≡◌, refl, sym, true, false, not, Option, none, some, List, arith, modify, First,
  Bool-cases, inl, inr, if-keeps, for_range-keeps, subst, find_index-cases, find_index, inc, NoneOf,
}
use cs_os.Chat.CString.{cstr, codes}
use cs_os.Chat.Protocol.{SockAddr}
use cs_os.Chat.Message.{Message, validate_client_id, create_message, msg_stop}
use cs_os.Chat.Message.ClientId.{IsClientId, validate_client_id_iff}
use cs_os.Chat.Server.{Server, max_clients, client_at, is_free, is_called, enter, find_client_by_id}
use cs_os.Chat.Server.Table.{IsQuiet}
use cs_os.Chat.Server.Lifecycle.{dismiss}
use cs_os.Chat.Server.Handlers.{server_name}
use cs_os.Chat.Server.Invariant.{dismiss-IsValid, enter-IsValid}
use cs_os.Tcp.Server.{World, Log, Network, send_to, close_fd, add_client}
use cs_os.Tcp.Server.Lifecycle.{
  turn_away, give_thread, admit, set_thread, dismiss_client, server_stop, welcome,
}
use cs_os.Tcp.System.{reset_thread}
use cs_os.Tcp.Sound.{Sound, one, held, opens, held-enter, held-leave}
use cs_os.Tcp.Sound.Operations.{
  send_to-IsSilent, silent-Sound, kept-Sound, give_up-Sound, close_fd-IsClean, close_fd-owned,
}

pub reset_thread-IsQuiet : IsQuiet reset_thread
unfolding reset_thread
reset_thread-IsQuiet = record {
  slot = λ c s. record { name_size = s.name_size; named = s.named };
  same = λ c h. (h, refl);
}

set_thread-IsQuiet : (t : ℕ) → IsQuiet (set_thread t)
unfolding set_thread
set_thread-IsQuiet t = record {
  slot = λ c s. record { name_size = s.name_size; named = s.named };
  same = λ c h. (h, refl);
}

-- The new client's slot takes its descriptor from the main thread.
add-Sound :
    (now : ℕ) (w : World) (fd k : ℕ) (addr : SockAddr) (id : List ℕ)
    → IsClientId (cstr id)
    → NoneOf (is_called id) w.clients
    → First is_free w.clients k
    → Sound (some fd) w
    → Sound none (record w {
      server = record w.server {
        clients = modify w.clients k (enter (some fd) addr id now);
        client_count = inc w.client_count;
      };
    })
add-Sound now w fd k addr id v n f s = record {
  valid = enter-IsValid (some fd) addr id now w.server k v n f s.valid;
  clean = s.clean;
  owned = λ g. omega (
    arith,
    held-enter (enter (some fd) addr id now) w.clients k fd g (λ c. unfold enter in refl)
        (λ c. unfold enter in refl) f,
    s.owned g,
  );
}

pub add_client-free :
    (now : ℕ) (s : Server) (fd k : ℕ) (addr : SockAddr) (id : List ℕ)
    → find_index is_free s.clients 0 ≡ some k
    → add_client now s (some fd) addr id ≡ (
      some k,
      record s {
        clients = modify s.clients k (enter (some fd) addr id now);
        client_count = inc s.client_count;
      },
    )
unfolding add_client
add_client-free now s fd k addr id e = rw (e, add_client) refl

pub add_client-full :
    (now : ℕ) (s : Server) (fd : ℕ) (addr : SockAddr) (id : List ℕ)
    → find_index is_free s.clients 0 ≡ none
    → add_client now s (some fd) addr id ≡ (none, s)
unfolding add_client
add_client-full now s fd addr id e = rw (e, add_client) refl

module _ (net : Network) where
  turn_away-Sound :
      (now : ℕ) (w : World) (fd : ℕ) (m : Message) (reason : List ℕ)
      → Sound (some fd) w
      → Sound none (turn_away net now w fd m reason)
  unfolding turn_away
  turn_away-Sound now w fd m reason s =
      give_up-Sound _ fd (silent-Sound (some fd) w _ (send_to-IsSilent net (some fd) _ w.log) s)

  -- The new client gets a slot with its descriptor, or its descriptor is closed.
  pub admit-Sound :
      (now t : ℕ) (w : World) (fd : ℕ) (addr : SockAddr) (m : Message)
      → Sound (some fd) w
      → Sound none (admit net now (some t) w fd addr m).1
  unfolding admit find_client_by_id
  admit-Sound now t w fd addr m s = elim (Bool-cases (validate_client_id (some m.sender_id))) [
    | inr bad ↦ rw (bad, admit) (turn_away-Sound now w fd m _ s)
    | inl good ↦ elim (find_index-cases (is_called m.sender_id) w.clients) [
      | inr (k, f, e) ↦ rw (good, e, admit) (turn_away-Sound now w fd m _ s)
      | inl (n, e) ↦
          rw (good, e, admit)
            (elim (find_index-cases is_free w.clients) [
              | inl (_, e') ↦
                  subst (λ r. Sound none (give_thread net now (some t) w fd m r).1)
                    (sym (add_client-full now w.server fd addr m.sender_id e'))
                    (turn_away-Sound now w fd m _ s)
              | inr (k, f, e') ↦
                  subst (λ r. Sound none (give_thread net now (some t) w fd m r).1)
                    (sym (add_client-free now w.server fd k addr m.sender_id e'))
                    (kept-Sound (set_thread t) none _ k (set_thread-IsQuiet t)
                      (λ c. unfold set_thread in refl) (λ c. unfold set_thread in refl)
                      (add-Sound now w fd k addr m.sender_id
                        ((validate_client_id_iff m.sender_id).0 good) n f s))
            ])
    ]
  ]

  dismiss_client-Sound :
      (now i : ℕ) (p : Option ℕ) (w : World)
      → (w.is_running ≡ false) × Sound p w
      → ((dismiss_client net now i w).is_running ≡ false) × Sound p (dismiss_client net now i w)
  unfolding dismiss_client
  dismiss_client-Sound now i p w (off, s) = elim (Bool-cases (client_at w.server i).is_active) [
    | inr gone ↦ rw (gone, dismiss_client) (off, s)
    | inl on ↦
        rw (on, dismiss_client)
          (
            off,
            record {
              valid = dismiss-IsValid w.server i off s.valid;
              clean = close_fd-IsClean (client_at w.server i).socket_fd log _ told.clean (owned on);
              owned = close_fd-owned (client_at w.server i).socket_fd log _ (owned on);
            },
          )
  ]
    where
      log : Log
      log =
          (send_to net (client_at w.server i).socket_fd
            (create_message msg_stop (some server_name) (some (client_at w.server i).client_id)
              (some (codes "Server shutting down")) now)
            w.log).1

      told : Sound p (record w { log = log })
      told = silent-Sound p w log (send_to-IsSilent net _ _ w.log) s

      owned :
          ((client_at w.server i).is_active ≡ true)
          → (fd : ℕ)
          → one (client_at w.server i).socket_fd fd
              + (one w.server_socket fd + one p fd + held (modify w.clients i dismiss) fd)
            ≡ opens log fd
      owned on fd =
          omega (
            arith,
            held-leave dismiss w.clients i fd (λ c. unfold dismiss in refl) on,
            told.owned fd,
          )

  -- Stopping closes the listening socket and every client's.
  pub server_stop-Sound :
      (now : ℕ) (p : Option ℕ) (w : World) → Sound p w → Sound p (server_stop net now w)
  unfolding server_stop
  server_stop-Sound now p w s =
      if-keeps (Sound p) (not w.is_running) w _ s
        (for_range-keeps (λ v. (v.is_running ≡ false) × Sound p v) (dismiss_client net now)
          (λ i v. dismiss_client-Sound now i p v) 0 max_clients halted (refl, halted-Sound)).1
    where
      rest : ℕ → ℕ
      rest fd = one p fd + held w.clients fd

      owned : (fd : ℕ) → one w.server_socket fd + rest fd ≡ opens w.log fd
      owned fd = omega (arith, s.owned fd)

      halted : World
      halted = record {
        server = record w.server { is_running = false; server_socket = none };
        log = close_fd w.server_socket w.log;
      }

      halted-Sound : Sound p halted
      halted-Sound = record {
        valid = record { slots = s.valid.slots; table = s.valid.table; counted = λ on. cc };
        clean = close_fd-IsClean w.server_socket w.log rest s.clean owned;
        owned = λ fd. omega (arith, close_fd-owned w.server_socket w.log rest owned fd);
      }

  pub welcome-Sound :
      (now : ℕ) (w : World) (fd : ℕ) → Sound none w → Sound none (welcome net now w fd)
  unfolding welcome
  welcome-Sound now w fd s = silent-Sound none w _ (send_to-IsSilent net (some fd) _ w.log) s
