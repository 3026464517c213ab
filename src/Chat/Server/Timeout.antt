-- ===== src/Chat/Server/Timeout.antt =====
-- What one sweep of `keepalive_monitor` (lab11/src/server.c) does to the slots: a client that was
-- heard lately is left alone.
use cs_os.Prelude.{
  ℕ, ◌-◌, ◌≤◌, ◌≡◌, ◌≢◌, ◌∙◌, false, not, some, [], ℤ, arith, leb, ltb, if◌then◌else◌, get_elem?,
  get_or_of_get_elem?, modify, for_range-keeps, if-keeps, get_elem?-modify_ne, dec,
}
use native.Mathlib.Decide.{ℕ_discrete}
use cs_os.Chat.Message.{create_message, msg_alive}
use cs_os.Chat.Protocol.{sizeof_sockaddr, Log, Sendto, send_message_protocol}
use cs_os.Chat.Server.Handlers.{server_name}
use cs_os.Chat.Server.{
  ServerClient, World, max_clients, max_inactive_count, keepalive_interval, client_at, no_client,
  remove_client, vacate, safe_close_socket,
}
use cs_os.Chat.Server.Keepalive.{has_failed, miss, ask, check_client, sweep}

-- Slot `k` holds this client.
record Holds (k : ℕ) (c : ServerClient) (w : World) : Type 0 where
  at : get_elem? w.clients k ≡ some c

remove_client-Holds :
    (k i : ℕ) (c : ServerClient) (w : World) → i ≢ k → Holds k c w → Holds k c (remove_client w i)
unfolding remove_client
remove_client-Holds k i c w ne h =
    if-keeps (Holds k c) (leb max_clients i) w
      (if (client_at w.server i).is_active then gone else w) h
      (if-keeps (Holds k c) (client_at w.server i).is_active gone w
        (record { at = get_elem?-modify_ne w.clients i k vacate ne ∙ h.at }) h)
  where
    gone : World
    gone = record {
      server = record w.server {
        clients = modify w.clients i vacate;
        client_count = dec w.client_count;
      };
      log = (safe_close_socket (client_at w.server i).socket_fd w.log).1;
    }

module _ (sendto : Sendto) (now : ℕ) where
  ask-Holds :
      (k i : ℕ) (c : ServerClient) (w : World)
      → i ≢ k
      → Holds k c w
      → Holds k c (ask sendto now w i)
  unfolding ask
  ask-Holds k i c w ne h =
      if-keeps (Holds k c) (leb max_inactive_count (client_at w.server i).inactive_count) _ _
        (remove_client-Holds k i c w ne h)
        (if-keeps (Holds k c) (has_failed result.0) _ _
          (remove_client-Holds k i c asked ne asked-Holds) asked-Holds)
    where
      result : ℤ × Log
      result =
          send_message_protocol sendto w.server_socket
            (create_message msg_alive (some server_name) (some (client_at w.server i).client_id)
              (some []) now)
            (some (client_at w.server i).addr) sizeof_sockaddr w.log

      asked : World
      asked = record w { log = result.1 }

      asked-Holds : Holds k c asked
      asked-Holds = record { at = h.at }

  check_client-Holds :
      (k : ℕ) (c : ServerClient)
      → now - c.last_seen ≤ keepalive_interval
      → (i : ℕ) (w : World) → Holds k c w
      → Holds k c (check_client sendto now i w)
  unfolding check_client
  check_client-Holds k c recent i w h = elim (ℕ_discrete i k) [
    | yes e ↦
        rw (e, get_or_of_get_elem? w.clients k c no_client h.at, quiet)
          (if-keeps (Holds k c) (not c.is_active) w w h h)
    | no ne ↦ if-keeps (Holds k c) _ _ _ h (
        if-keeps (Holds k c) _ _ _
          (ask-Holds k i c _ ne (record { at = get_elem?-modify_ne w.clients i k miss ne ∙ h.at }))
          h)
  ]
    where
      quiet : ltb keepalive_interval (now - c.last_seen) ≡ false
      quiet = ground arith

  -- A sweep leaves the slot of a client that was heard in the last 30 seconds as it is, whatever
  -- becomes of the others.
  pub sweep-recent :
      (w : World) (k : ℕ) (c : ServerClient)
      → get_elem? w.clients k ≡ some c
      → now - c.last_seen ≤ keepalive_interval
      → get_elem? (sweep sendto now w).clients k ≡ some c
  unfolding sweep
  sweep-recent w k c e recent =
      (for_range-keeps (Holds k c) (check_client sendto now) (check_client-Holds k c recent) 0
        max_clients w (record { at = e })).at
