-- ===== src/Chat/Server/Tests.antt =====
-- Runs of the server at small inputs (lab11/src/server.c), and its theorems applied to them.
use cs_os.Prelude.{
  for_range, ℕ, zero, suc, ◌≡◌, refl, inl, inr, true, some, List, [], ◌∷◌, ◌++◌, if◌then◌else◌, pos,
  minus_one, get_elem?, take, find_index, map, replicate,
}
use mathlib.Core.List.{reverse}
use cs_os.Chat.CString.{codes, cstr, strlen}
use cs_os.Chat.Message.{
  Message, msg_2all, msg_2one, msg_broadcast, msg_private, create_message, type_code, is_digit,
  is_alnum, validate_message, sizeof_message, validate_client_id,
}
use cs_os.Chat.Protocol.{SockAddr, Sendto}
use cs_os.Chat.Server.{ServerClient, World, client_at, find_client_by_id, add_client_udp}
use cs_os.Chat.Server.Handlers.{
  register, handle_2all_request_udp, handle_2one_request_udp, handle_stop_request_udp, client_list,
}
use cs_os.Chat.Server.Main.{server_main}
use cs_os.Chat.Server.Lifecycle.{
  server_stop, empty_slot, fresh_server, Input, datagram, signalled, server_init, server_start,
  server_cleanup, dismiss_client,
}
use cs_os.Chat.Server.Invariant.{IsValid}
use cs_os.Chat.Server.Invariant.Runs.{
  System, registered, take_request, Reach, here, later, started, Reach-IsValid,
}
use cs_os.Chat.Server.Delivery.{
  attempts, others, handle_2all_request_udp_lem, handle_2one_request_udp-found,
}
use cs_os.Chat.Server.Listing.{announcement, names, client_list_lem}
use cs_os.Chat.Server.Shutdown.{is_closed, deliveries, Ebadf, Share}
use cs_os.Chat.Server.Shutdown.Last.{stop_silences, server_stop-delivers_none}

-- A system whose `sendto` takes every datagram on an open descriptor.
abbrev os : Sendto
os log fd msg addr = if is_closed fd log then minus_one else pos sizeof_message

os-Ebadf : Ebadf os
os-Ebadf log fd msg addr h = rw h

abbrev ann : List ℕ
ann = codes "ann"

abbrev ann_addr : SockAddr
ann_addr = record { ip = 1; port = 5000 }

abbrev hello : Message
hello = create_message msg_2all (some ann) (some []) (some (codes "hello")) 4000

abbrev start : System
start = started 2000 7 (some 3)

abbrev joined : World
joined = (register os 4000 start.world hello ann_addr 16).1

joined-Reach :
    Reach os start (registered (register os 4000 start.world hello ann_addr 16) hello ann_addr 16)
unfolding started validate_message create_message fresh_server type_code strlen
joined-Reach = later here (take_request 4000 hello ann_addr 16 refl refl refl refl)

Reach-IsValid_example : IsValid joined.server
unfolding registered
Reach-IsValid_example = Reach-IsValid 2000 7 (some 3) joined-Reach

abbrev ann_slot : ServerClient
ann_slot = client_at joined.server 0

joined_slot :
    (joined.clients ≡ ann_slot ∷ replicate 254 empty_slot)
    × (ann_slot.is_active ≡ true)
    × (ann_slot.socket_fd ≡ some 3)
    × (cstr ann_slot.client_id ≡ cstr ann)
    × (joined.server_socket ≡ some 3)
unfolding started register create_message fresh_server find_client_by_id validate_client_id
    add_client_udp find_index strlen is_digit is_alnum
joined_slot = (refl, refl, refl, refl, refl)

joined_at : get_elem? joined.clients 0 ≡ some ann_slot
joined_at = rw joined_slot.0

-- Every slot of the first state holds descriptor 3 or none.
Share-replicate : (n : ℕ) → Share 3 (replicate n empty_slot)
Share-replicate zero = tt
Share-replicate (suc n) = (inl refl, Share-replicate n)

joined-Share : Share 3 joined.clients
joined-Share = rw joined_slot.0 (inr joined_slot.2, Share-replicate 254)

joined-IsValid : IsValid joined.server
unfolding registered
joined-IsValid = Reach-IsValid 2000 7 (some 3) joined-Reach

-- A private message to "ann".
abbrev whisper : Message
whisper = create_message msg_2one (some (codes "bob")) (some ann) (some (codes "psst")) 4000

handle_2one_request_udp-found_example :
    let w' = handle_2one_request_udp os 4000 joined whisper in
    let m =
      create_message msg_private
        (some whisper.sender_id)
        (some whisper.recipient_id)
        (some whisper.content)
        4000 in
    (attempts w'.log ≡ (3, m, ann_slot.addr) ∷ attempts joined.log) × (w'.server ≡ joined.server)
handle_2one_request_udp-found_example =
    handle_2one_request_udp-found os 3 4000 joined whisper 0 ann_slot joined-IsValid.table
      joined_slot.4 joined_at joined_slot.1 (unfold create_message cstr in joined_slot.3)

handle_2all_request_udp_example :
    let w' = handle_2all_request_udp os 4000 joined whisper in
    let m =
      create_message msg_broadcast (some whisper.sender_id) (some []) (some whisper.content) 4000 in
    (attempts w'.log
      ≡ reverse (map (λ addr. (3, m, addr)) (others whisper.sender_id joined.clients))
        ++ attempts joined.log)
    × (w'.server ≡ joined.server)
handle_2all_request_udp_example = handle_2all_request_udp_lem os 3 4000 joined whisper joined_slot.4

client_list_example :
    cstr (client_list joined.clients) ≡ take 1023 (announcement (names joined.clients))
client_list_example = client_list_lem joined.clients

-- The announcement of one name.
announced : announcement (ann ∷ codes "bob" ∷ []) ≡ codes "Connected clients: ann, bob"
unfolding announcement
announced = refl

stop_silences_example :
    let w' = handle_stop_request_udp os 4001 joined ann_addr 16 ann in
    (w'.server_socket ≡ some 3)
    × (w'.is_running ≡ joined.is_running)
    × (deliveries w'.log ≡ deliveries w'.log)
stop_silences_example =
    stop_silences os-Ebadf 4001 joined ann_addr 16 ann 0 ann_slot joined-IsValid joined-Share
      joined_slot.4 joined_at joined_slot.1 joined_slot.2 joined_slot.3 here

server_stop-delivers_none_example :
    deliveries (server_stop os 4001 joined).log ≡ deliveries joined.log
server_stop-delivers_none_example =
    server_stop-delivers_none os-Ebadf 4001 joined joined-Share joined_slot.4

-- A server that gets a datagram of the wrong size, and then a signal.
abbrev short_life : List (ℕ × Input)
short_life = (4000, datagram 10 hello ann_addr 16) ∷ (4001, signalled) ∷ []

abbrev served : World
served =
    server_start os 3999 (some 7) (server_init start.world 2000 true (some 3) true true).1
      short_life

served_off :
    server_main os start.world 2000 true (some 3) true true 3999 (some 7) short_life 4002
    ≡ some (0, server_cleanup os 4002 served)
unfolding server_main server_init server_start server_stop started fresh_server for_range
    dismiss_client
served_off = refl
