-- ===== src/Tcp/Tests/Server.antt =====
-- Runs of the server of the TCP chat (lab10/src/server.c) on small inputs.
use cs_os.Prelude.{
  ℕ, ◌+◌, ◌≤◌, ◌≡◌, ◌≢◌, refl, ap, true, false, none, some, [], ◌∷◌, ◌++◌, arith, replicate,
  length-replicate, pos, if◌then◌else◌, ◌==◌,
}
use cs_os.Chat.CString.{codes, zeros}
use cs_os.Chat.Protocol.{SockAddr}
use cs_os.Chat.Message.{validate_message, type_code, is_digit, is_alnum, validate_client_id}
use cs_os.Chat.Server.{ServerClient, client_at, find_client_by_id}
use cs_os.Chat.Server.Lifecycle.{fresh_server, empty_slot}
use cs_os.Chat.Server.Invariant.{IsValid}
use cs_os.Tcp.Stream.{SendAnswer}
use cs_os.Tcp.Server.{World, Network, opened, closed, add_client}
use cs_os.Tcp.Server.Handlers.{broadcast_message}
use cs_os.Tcp.Server.Keepalive.{keepalive_monitor}
use cs_os.Tcp.Server.Lifecycle.{server_init, admit, started}
use cs_os.Tcp.System.{
  System, accepting, receiving, cleaning, joining, finished, server_start, Reach, start, then_step,
  accept, identify, break_off, is_open, move_thread,
}
use cs_os.Tcp.Sound.{Sound, one, held, opens, IsClean}
use cs_os.Tcp.Sound.Operations.{accept-Sound}
use cs_os.Tcp.Sound.Admission.{admit-Sound}
use cs_os.Tcp.Sound.Steps.{pending, ready, ready-Sound, Reach-owned, Reach-table}
use cs_os.Tcp.Hang.{IsWaiting, IsAlive, Reach-IsWaiting}
use cs_os.Tcp.Shutdown.{signal-hangs}
use cs_os.Tcp.Delivery.{sends, broadcast_message-sends}
use cs_os.Tcp.Failure.{admit-thread_failed}
use cs_os.Tcp.Start.{refused, server_main, StartsSound, server_main-StartsSound}
use cs_os.Tcp.Timeout.{keepalive_monitor-silent}
use cs_os.Tcp.Tests.{hello, flat, byte_by_byte}

-- Every call of `send` takes one byte.
abbrev pub slow : Network
slow = record {
  to_bytes = flat;
  answers = λ log fd m. replicate 1248 (SendAnswer.took 1);
  enough = λ log fd m. byte_by_byte;
}

abbrev home : SockAddr
home = record { ip = 7; port = 9 }

-- The memory before `server_init`, which does not matter.
abbrev nothing : World
nothing = record { server = fresh_server 0; log = [] }

-- A call with a port, where `bind` fails.
server_main_lem :
    server_main slow 3999
      (some 7)
      true
      (some 3)
      true
      false
      true
      (λ text. 2000)
      nothing
      (codes "server" ∷ codes "2000" ∷ [])
    ≡ refused (record nothing { server = fresh_server 2000; log = closed 3 ∷ opened 3 ∷ [] })
unfolding server_main
server_main_lem = refl

server_main-StartsSound_example : StartsSound (
    server_main slow 3999
      (some 7)
      true
      (some 3)
      true
      false
      true
      (λ text. 2000)
      nothing
      (codes "server" ∷ codes "2000" ∷ []))
server_main-StartsSound_example =
    server_main-StartsSound slow 3999 (some 7) true (some 3) true false true (λ text. 2000)
      (fresh_server 0) (codes "server" ∷ codes "2000" ∷ [])

abbrev made : World
made = (server_init nothing 2000 true (some 3) true true true).1

made_ok : (server_init nothing 2000 true (some 3) true true true).0 ≡ pos 0
unfolding server_init
made_ok = refl

abbrev first : System
first = server_start slow 3999 (some 7) made

first_runs : first.world.is_running ≡ true
unfolding started
first_runs = refl

five_new : is_open 5 first.world.log ≡ false
unfolding started server_init is_open
five_new = refl

hello_valid : validate_message 4000 hello ≡ true
unfolding validate_message type_code
hello_valid = refl

-- A client connects and introduces itself.
connected : (s : System) × Reach slow first s
connected = (
  _,
  then_step _ _ (then_step _ _ start (accept first 5 home refl first_runs five_new))
      (identify _ 5 home 4000 hello refl hello_valid),
)

Reach-owned_example :
    IsClean connected.0.world.log
    × ((fd : ℕ)
        → one connected.0.world.server_socket fd
            + one (pending connected.0.main) fd
            + held connected.0.world.clients fd
          ≡ opens connected.0.world.log fd)
unfolding connected
Reach-owned_example =
    Reach-owned slow nothing 2000 3999 (some 7) true (some 3) true true true connected.0 refl
      made_ok connected.1

Reach-table_example : IsValid connected.0.world.server
Reach-table_example =
    Reach-table slow nothing 2000 3999 (some 7) true (some 3) true true true connected.0 refl
      made_ok connected.1

-- The server is stopped while the thread of slot 0 waits for a message.
abbrev seat : ServerClient
seat = record {
  socket_fd = some 5;
  client_id = codes "ann" ++ zeros 97;
  addr = home;
  last_seen = 4000;
  inactive_count = 1;
  is_active = true;
  thread_id = 1;
}

abbrev stopping : System
stopping = record {
  world = record {
    server = record (fresh_server 2000) { clients = seat ∷ replicate 254 empty_slot };
    log = closed 3 ∷ opened 5 ∷ opened 3 ∷ [];
  };
  main = joining 0;
  threads = (record { slot = 0; phase = receiving }) ∷ [];
}

stopping-IsWaiting : IsWaiting 0 0 stopping
stopping-IsWaiting = record {
  at = (0, refl, omega arith);
  inside = omega arith;
  thread = refl;
  alive = (record { slot = 0; phase = receiving }, refl, λ e. cc);
}

Reach-IsWaiting_example :
    ((move_thread 0 cleaning stopping).main ≢ finished)
    × IsAlive (move_thread 0 cleaning stopping).threads 0
Reach-IsWaiting_example =
    Reach-IsWaiting slow 0 0 stopping (move_thread 0 cleaning stopping) stopping-IsWaiting (
      then_step _ _ start (break_off stopping 0 (record { slot = 0; phase = receiving }) refl refl))

-- A connection that has been accepted by a server that runs.
abbrev greeted : World
greeted = record { server = (started 7 (ready 2000 3)).server; log = opened 5 ∷ (ready 2000 3).log }

three_open : is_open 5 (started 7 (ready 2000 3)).log ≡ false
unfolding is_open started
three_open = refl

greeted-Sound : Sound (some 5) greeted
greeted-Sound =
    unfold started in accept-Sound (started 7 (ready 2000 3)) 5 three_open (ready-Sound 2000 3 7)

abbrev member : World
member = (admit slow 4000 (some 1) greeted 5 home hello).1

broadcast_message-sends_example :
    ((broadcast_message slow member hello (some 9)).server ≡ member.server)
    × (sends 5 (broadcast_message slow member hello (some 9)).log
        ≡ (if 5 == 9 then 0 else held member.clients 5) + sends 5 member.log)
    × (held member.clients 5 ≤ 1)
broadcast_message-sends_example =
    broadcast_message-sends slow none member hello 9 5
      (admit-Sound slow 4000 1 greeted 5 home hello greeted-Sound)

hello_named : validate_client_id (some hello.sender_id) ≡ true
unfolding validate_client_id is_digit is_alnum
hello_named = refl

hello_new : find_client_by_id greeted.server hello.sender_id ≡ none
unfolding find_client_by_id started fresh_server
hello_new = refl

room : (add_client 4000 greeted.server (some 5) home hello.sender_id).0 ≡ some 0
unfolding add_client started fresh_server
room = refl

admit-thread_failed_example :
    ((admit slow 4000 none greeted 5 home hello).0 ≡ none)
    × ((admit slow 4000 none greeted 5 home hello).1.log ≡ closed 5 ∷ closed 5 ∷ greeted.log)
    × (IsClean (admit slow 4000 none greeted 5 home hello).1.log → ⊥)
admit-thread_failed_example =
    admit-thread_failed slow 4000 greeted 5 0 home hello greeted-Sound.valid.slots hello_named
      hello_new room

abbrev quiet_room : World
quiet_room = record {
  server = record (fresh_server 2000) {
    clients = seat ∷ replicate 254 empty_slot;
    is_running = true;
  };
  log = [];
}

keepalive_monitor-silent_example :
    (client_at (keepalive_monitor slow (4031 ∷ 4061 ∷ 4091 ∷ []) quiet_room).server 0).is_active
    ≡ false
keepalive_monitor-silent_example =
    keepalive_monitor-silent slow 0 seat (4031 ∷ 4061 ∷ 4091 ∷ []) quiet_room refl
      (ap (◌+◌ 1) (length-replicate 254 empty_slot)) refl
      (omega arith, (omega arith, (omega arith, tt))) (omega arith)

-- The same client while the server still runs.
abbrev serving : System
serving = record {
  world = record {
    server = record (fresh_server 2000) {
      server_socket = some 3;
      clients = seat ∷ replicate 254 empty_slot;
      is_running = true;
    };
    log = opened 5 ∷ opened 3 ∷ [];
  };
  main = accepting;
  threads = (record { slot = 0; phase = receiving }) ∷ [];
}

signal-hangs_example :
    (t : System) × Reach slow serving t × ((u : System) → Reach slow t u → u.main ≡ finished → ⊥)
signal-hangs_example =
    signal-hangs slow 4100 0 0 serving refl (omega arith) refl
      (record { slot = 0; phase = receiving }, refl, λ e. cc)
