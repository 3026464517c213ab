-- ===== src/Tcp/Server/Keepalive.antt =====
-- `keepalive_monitor` of lab10/src/server.c: the thread that asks silent clients for a sign of life
-- and removes those that give none.
use cs_os.Prelude.{ℕ, ◌-◌, not, some, List, [], ◌∷◌, leb, ltb, if◌then◌else◌, modify, for_range}
use cs_os.Chat.Message.{msg_alive, create_message}
use cs_os.Chat.Server.{max_clients, max_inactive_count, keepalive_interval, client_at}
use cs_os.Chat.Server.Handlers.{server_name}
use cs_os.Chat.Server.Keepalive.{has_failed, miss}
use cs_os.Tcp.Server.{World, Network, send_to, remove_client}

module _ (net : Network) where
  -- A client that has been silent for too long, its count raised: it is removed, or asked.
  unfoldable pub ask : ℕ → World → ℕ → World
  unfolding send_to
  ask now w i =
      if leb max_inactive_count (client_at w.server i).inactive_count
      then remove_client w i
      else let (result, log) =
          send_to net (client_at w.server i).socket_fd
            (create_message msg_alive (some server_name) (some (client_at w.server i).client_id)
              (some []) now)
            w.log in
        let w' = record w { log = log } in if has_failed result then remove_client w' i else w'

  -- One round of the loop over the table. A clock that was set back gives a negative difference,
  -- which is not over the limit; the subtraction here stops at 0.
  unfoldable pub check_client : ℕ → ℕ → World → World
  unfolding ask miss
  check_client now i w =
      if not (client_at w.server i).is_active
      then w
      else if ltb keepalive_interval (now - (client_at w.server i).last_seen)
      then ask now (record w { server = record w.server { clients = modify w.clients i miss } }) i
      else w

  -- The body of the monitor's loop, under the mutex.
  unfoldable pub sweep : ℕ → World → World
  unfolding check_client
  sweep now = for_range (check_client now) 0 max_clients

  -- The monitor, for the times at which its sleep ends.
  unfoldable pub keepalive_monitor : List ℕ → World → World
  unfolding sweep
  keepalive_monitor [] w = w
  keepalive_monitor (now ∷ wakes) w =
      keepalive_monitor wakes (if w.is_running then sweep now w else w)
