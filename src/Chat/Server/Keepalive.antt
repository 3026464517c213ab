-- ===== src/Chat/Server/Keepalive.antt =====
-- `keepalive_monitor` of lab11/src/server.c: the thread that asks silent clients for a sign of life
-- and removes those that give none.
use cs_os.Prelude.{
  ℕ, ◌+◌, ◌-◌, Bool, not, some, List, [], ◌∷◌, leb, ltb, if◌then◌else◌, ℤ, pos, ltb_ℤ, modify,
  for_range,
}
use cs_os.Chat.Message.{msg_alive, create_message}
use cs_os.Chat.Protocol.{sizeof_sockaddr, Sendto, send_message_protocol}
use cs_os.Chat.Server.{
  ServerClient, World, max_clients, max_inactive_count, keepalive_interval, client_at,
  remove_client,
}
use cs_os.Chat.Server.Handlers.{server_name}

-- `result <= 0`
abbrev pub has_failed : ℤ → Bool
has_failed result = not (ltb_ℤ (pos 0) result)

unfoldable pub miss : ServerClient → ServerClient
miss c = record c { inactive_count = c.inactive_count + 1 }

module _ (sendto : Sendto) where
  -- A client that has been silent for too long, its count raised: it is removed, or asked.
  unfoldable pub ask : ℕ → World → ℕ → World
  unfolding send_message_protocol
  ask now w i =
      if leb max_inactive_count (client_at w.server i).inactive_count
      then remove_client w i
      else let (result, log) =
          send_message_protocol sendto w.server_socket
            (create_message msg_alive (some server_name) (some (client_at w.server i).client_id)
              (some []) now)
            (some (client_at w.server i).addr) sizeof_sockaddr w.log in
        let w' = record w { log = log } in if has_failed result then remove_client w' i else w'

  -- One round of the loop over the table. A clock that was set back gives a negative difference,
  -- which is not over the limit; the subtraction here stops at 0.
  unfoldable pub check_client : ℕ → ℕ → World → World
  unfolding ask miss
  check_client now i w =
      if not (client_at w.server i).is_active
      then w
      else if ltb keepalive_interval (now - (client_at w.server i).last_seen)
      then ask now (record w { server = record w.server { clients = modify w.clients i miss } }) i
      else w

  -- The body of the monitor's loop, under the mutex.
  unfoldable pub sweep : ℕ → World → World
  unfolding check_client
  sweep now = for_range (check_client now) 0 max_clients

  -- The monitor, for the times at which its sleep ends.
  unfoldable pub keepalive_monitor : List ℕ → World → World
  unfolding sweep
  keepalive_monitor [] w = w
  keepalive_monitor (now ∷ wakes) w =
      keepalive_monitor wakes (if w.is_running then sweep now w else w)
