-- ===== src/Tcp/Sound/Requests.antt =====
-- What the threads of lab10/src/server.c do under the mutex keeps the table and the descriptors.
use cs_os.Prelude.{
  ℕ, refl, ◌∙◌, Option, none, some, List, [], ◌∷◌, leb, if-keeps, for_range-keeps, ℤ,
}
use cs_os.Chat.Message.{
  Message, MessageType, create_message, msg_alive, msg_list, msg_2all, msg_2one, msg_stop,
  msg_alive_response, msg_error, msg_client_list, msg_broadcast, msg_private, out_of_range,
}
use cs_os.Chat.Server.{
  ServerClient, max_clients, max_inactive_count, client_at, find_client_by_id,
  find_client_by_socket,
}
use cs_os.Chat.Server.Table.{IsQuiet}
use cs_os.Chat.Server.Keepalive.{miss, has_failed}
use cs_os.Chat.Server.Handlers.{server_name}
use cs_os.Chat.Server.Invariant.{miss-IsQuiet}
use cs_os.Tcp.Server.{World, Log, Network, send_to, remove_client}
use cs_os.Tcp.Server.Handlers.{
  heard, heard_at, answer, send_client_list, send_other_clients, send_private_message,
  handle_alive_response, handle_list_request, handle_2all_request, handle_2one_request,
  handle_stop_request, broadcast_message,
}
use cs_os.Tcp.Server.Keepalive.{ask, check_client, sweep}
use cs_os.Tcp.System.{leave}
use cs_os.Tcp.Sound.{Sound}
use cs_os.Tcp.Sound.Operations.{
  IsSilent, send_to-IsSilent, silent-Sound, kept-Sound, remove_client-Sound,
}

heard-IsQuiet : (now : ℕ) → IsQuiet (heard now)
unfolding heard
heard-IsQuiet now = record {
  slot = λ c s. record { name_size = s.name_size; named = s.named };
  same = λ c h. (h, refl);
}

pub heard_at-Sound :
    (now : ℕ) (p : Option ℕ) (w : World) (i : ℕ) → Sound p w → Sound p (heard_at now w i)
unfolding heard_at
heard_at-Sound now p w i s =
    kept-Sound (heard now) p w i (heard-IsQuiet now) (λ c. unfold heard in refl)
      (λ c. unfold heard in refl) s

pub leave-Sound : (p : Option ℕ) (w : World) (i : ℕ) → Sound p w → Sound p (leave w i)
unfolding leave
leave-Sound p w i s =
    elim (find_client_by_socket w.server (client_at w.server i).socket_fd)
      as (λ o. Sound p (elim o [ none ↦ w | some k ↦ remove_client w k ])) [
        | none ↦ s
        | some k ↦ remove_client-Sound p w k s
      ]

handle_alive_response-Sound :
    (now : ℕ) (p : Option ℕ) (w : World) (socket : Option ℕ)
    → Sound p w
    → Sound p (handle_alive_response now w socket)
unfolding handle_alive_response
handle_alive_response-Sound now p w socket s =
    elim (find_client_by_socket w.server socket)
      as (λ o. Sound p (elim o [ none ↦ w | some i ↦ heard_at now w i ])) [
        | none ↦ s
        | some i ↦ heard_at-Sound now p w i s
      ]

module _ (net : Network) where
  send_private_message-Sound :
      (p : Option ℕ) (w : World) (m : Message) (id : List ℕ)
      → Sound p w
      → Sound p (send_private_message net w m id)
  unfolding send_private_message
  send_private_message-Sound p w m id s =
      elim (find_client_by_id w.server id)
        as (λ o. Sound p (elim o [
          | none ↦ w
          | some i ↦ record w { log = (send_to net (client_at w.server i).socket_fd m w.log).1 }
        ])) [ none ↦ s | some i ↦ silent-Sound p w _ (send_to-IsSilent net _ m w.log) s ]

  ask-Sound : (now : ℕ) (p : Option ℕ) (w : World) (i : ℕ) → Sound p w → Sound p (ask net now w i)
  unfolding ask
  ask-Sound now p w i s =
      if-keeps (Sound p) (leb max_inactive_count (client_at w.server i).inactive_count) _ _
        (remove_client-Sound p w i s)
        (if-keeps (Sound p) (has_failed result.0) _ _ (remove_client-Sound p asked i asked-Sound)
          asked-Sound)
    where
      result : ℤ × Log
      result =
          send_to net (client_at w.server i).socket_fd
            (create_message msg_alive (some server_name) (some (client_at w.server i).client_id)
              (some []) now)
            w.log

      asked : World
      asked = record w { log = result.1 }

      asked-Sound : Sound p asked
      asked-Sound = silent-Sound p w result.1 (send_to-IsSilent net _ _ w.log) s

  check_client-Sound :
      (now i : ℕ) (p : Option ℕ) (w : World) → Sound p w → Sound p (check_client net now i w)
  unfolding check_client
  check_client-Sound now i p w s = if-keeps (Sound p) _ _ _ s (
      if-keeps (Sound p) _ _ _
        (ask-Sound now p _ i (
          kept-Sound miss p w i miss-IsQuiet (λ c. unfold miss in refl) (λ c. unfold miss in refl)
            s))
        s)

  pub sweep-Sound : (now : ℕ) (p : Option ℕ) (w : World) → Sound p w → Sound p (sweep net now w)
  unfolding sweep
  sweep-Sound now p w s =
      for_range-keeps (Sound p) (check_client net now) (λ i w. check_client-Sound now i p w) 0
        max_clients w s

  send_other_clients-IsSilent :
      (m : Message) (socket : Option ℕ) (cs : List ServerClient) (first log : Log)
      → IsSilent first log
      → IsSilent first (send_other_clients net m socket cs log)
  unfolding send_other_clients
  send_other_clients-IsSilent m socket [] first log q = q
  send_other_clients-IsSilent m socket (c ∷ cs) first log q =
      send_other_clients-IsSilent m socket cs first _
        (if-keeps (IsSilent first) _ _ _ (after q (send_to-IsSilent net c.socket_fd m log)) q)
    where
      after : {a b d : Log} → IsSilent a b → IsSilent b d → IsSilent a d
      after q r = record { same = λ fd. r.same fd ∙ q.same fd; clean = λ h. r.clean (q.clean h) }

  -- The answers close nothing.
  pub answer-Sound :
      (now : ℕ) (type : MessageType) (p : Option ℕ) (w : World) (m : Message) (socket : Option ℕ)
      → Sound p w
      → Sound p (answer net now type w m socket)
  unfolding answer handle_list_request handle_2all_request handle_2one_request handle_stop_request
      send_client_list broadcast_message
  answer-Sound now msg_list p w m socket s =
      silent-Sound p w _ (send_to-IsSilent net socket _ w.log) s
  answer-Sound now msg_2all p w m socket s =
      silent-Sound p w _
        (send_other_clients-IsSilent _ socket w.clients w.log w.log
          (record { same = λ fd. refl; clean = λ c. c }))
        s
  answer-Sound now msg_2one p w m socket s = send_private_message-Sound p w _ m.recipient_id s
  answer-Sound now msg_stop p w m socket s =
      silent-Sound p w _ (send_to-IsSilent net socket _ w.log) s
  answer-Sound now msg_alive_response p w m socket s = handle_alive_response-Sound now p w socket s
  answer-Sound now msg_alive p w m socket s = s
  answer-Sound now msg_error p w m socket s = s
  answer-Sound now msg_client_list p w m socket s = s
  answer-Sound now msg_broadcast p w m socket s = s
  answer-Sound now msg_private p w m socket s = s
  answer-Sound now (out_of_range n) p w m socket s = s
