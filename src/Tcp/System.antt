-- ===== src/Tcp/System.antt =====
-- The threads of lab10/src/server.c: the main thread, which lets clients in and cleans up at the
-- end, one thread for each client (`handle_client`), the monitor and the signal handler. A step is
-- what one thread does between two system calls that wait, or whole under `clients_mutex`; no
-- thread takes the mutex while the main thread has it in `server_cleanup`.
use cs_os.Prelude.{
  ℕ, zero, suc, ◌+◌, ◌≡◌, ◌<◌, Bool, true, false, ◌&&◌, Option, none, some, List, [], ◌∷◌, ◌++◌,
  ◌==◌, if◌then◌else◌, modify, length, get_elem?,
}
use cs_os.Chat.Message.{
  MessageType, msg_list, msg_2all, msg_2one, msg_stop, msg_alive_response, Message,
  validate_message,
}
use cs_os.Chat.Protocol.{SockAddr}
use cs_os.Chat.Server.{ServerClient, max_clients, client_at, find_client_by_socket}
use cs_os.Tcp.Server.{World, Network, Log, opened, closed, sent, close_fd, remove_client}
use cs_os.Tcp.Server.Handlers.{heard_at, answer}
use cs_os.Tcp.Server.Keepalive.{sweep}
use cs_os.Tcp.Server.Lifecycle.{started, admit, welcome, server_stop}

-- Where `handle_client` is: at its loop's condition, in `receive_message_protocol`, at the
-- `switch`, at the label `cleanup`, or at its end.
pub data ThreadPhase : Type 0 where
  checking receiving : ThreadPhase
  answering : Message → ThreadPhase
  cleaning ended : ThreadPhase

-- The argument of a client's thread is the address of a slot, which is the index of the slot here.
pub record ClientThread : Type 0 where
  pub slot : ℕ
  pub phase : ThreadPhase

-- Where the main thread is: in `accept`, in the receipt of the first message on a new descriptor,
-- before the welcome message, in the loop of `server_cleanup` that waits for the threads, or at the
-- end.
pub data MainPhase : Type 0 where
  accepting : MainPhase
  identifying : ℕ → SockAddr → MainPhase
  welcoming : ℕ → MainPhase
  joining : ℕ → MainPhase
  finished : MainPhase

-- The thread with the id n + 1 is the one at the index n.
pub record System : Type 0 where
  pub world : World
  pub main : MainPhase
  pub threads : List ClientThread

-- Nobody has `clients_mutex` for longer than a step.
unfoldable pub mutex_free : MainPhase → Bool
mutex_free (joining i) = false
mutex_free _ = true

-- `handle_list_request` and the like take the mutex; a farewell, or a type without a case, does
-- not.
unfoldable pub takes_mutex : MessageType → Bool
takes_mutex msg_list = true
takes_mutex msg_2all = true
takes_mutex msg_2one = true
takes_mutex msg_alive_response = true
takes_mutex _ = false

unfoldable pub after_answer : MessageType → ThreadPhase
after_answer msg_stop = cleaning
after_answer _ = checking

unfoldable pub move : ThreadPhase → ClientThread → ClientThread
move phase t = record t { phase = phase }

-- The label `cleanup` of `handle_client`.
unfoldable pub leave : World → ℕ → World
unfolding find_client_by_socket
leave w i = elim (find_client_by_socket w.server (client_at w.server i).socket_fd) [
  | none ↦ w
  | some k ↦ remove_client w k
]

-- A new thread is at the start of its loop; without a slot there is none.
unfoldable pub spawn : Option ℕ → List ClientThread → List ClientThread
spawn none ts = ts
spawn (some i) ts = ts ++ (record { slot = i; phase = checking }) ∷ []

unfoldable pub after_admit : Option ℕ → ℕ → MainPhase
after_admit none fd = accepting
after_admit (some i) fd = welcoming fd

-- The descriptor is open: the last call for it opened it.
unfoldable pub is_open : ℕ → Log → Bool
is_open fd [] = false
is_open fd (opened a ∷ log) = let rest = is_open fd log in if fd == a then true else rest
is_open fd (closed a ∷ log) = let rest = is_open fd log in if fd == a then false else rest
is_open fd (sent a m r ∷ log) = is_open fd log

unfoldable pub reset_thread : ServerClient → ServerClient
reset_thread c = record c { thread_id = 0 }

-- A slot without a thread, or with one that is at its end, is not waited for.
abbrev pub IsJoinable : ℕ → List ClientThread → Type 0
IsJoinable zero ts = Unit
IsJoinable (suc n) ts = (t : ClientThread) × (get_elem? ts n ≡ some t) × (t.phase ≡ ended)

abbrev pub with_world : World → System → System
with_world w s = record s { world = w }

abbrev pub move_thread : ℕ → ThreadPhase → System → System
move_thread n phase s = record s { threads = modify s.threads n (move phase) }

-- `server_start` up to its loop. `thread` is the monitor's thread; where it cannot be created, the
-- server is stopped, and `server_cleanup` follows.
abbrev pub server_start : Network → ℕ → Option ℕ → World → System
server_start net now (some thread) w = record {
  world = started thread w;
  main = accepting;
  threads = [];
}
server_start net now none w = record {
  world = server_stop net now (started w.keepalive_thread w);
  main = joining 0;
  threads = [];
}

module _ (net : Network) where
  -- One step of one thread. `n` is a client's thread, `t` what it is.
  pub data Step : System → System → Type 0 where
    -- `accept` returns a descriptor that was not open.
    accept :
        (s : System) (fd : ℕ) (addr : SockAddr)
        → s.main ≡ accepting
        → s.world.is_running ≡ true
        → is_open fd s.world.log ≡ false
        → Step s (record s {
          world = record s.world { log = opened fd ∷ s.world.log };
          main = identifying fd addr;
        })
    -- `configure_socket`, the receipt of the first message, or the message itself fails.
    give_up :
        (s : System) (fd : ℕ) (addr : SockAddr)
        → s.main ≡ identifying fd addr
        → Step s (record s {
          world = record s.world { log = closed fd ∷ s.world.log };
          main = accepting;
        })
    -- `pthread_create` succeeds, with the next thread's id.
    identify :
        (s : System) (fd : ℕ) (addr : SockAddr) (now : ℕ) (m : Message)
        → s.main ≡ identifying fd addr
        → validate_message now m ≡ true
        → Step s (record {
          world = (admit net now (some (length s.threads + 1)) s.world fd addr m).1;
          main = after_admit (admit net now (some (length s.threads + 1)) s.world fd addr m).0 fd;
          threads =
              spawn (admit net now (some (length s.threads + 1)) s.world fd addr m).0 s.threads;
        })
    greet :
        (s : System) (fd : ℕ) (now : ℕ)
        → s.main ≡ welcoming fd
        → Step s (record s { world = welcome net now s.world fd; main = accepting })
    check :
        (s : System) (n : ℕ) (t : ClientThread)
        → get_elem? s.threads n ≡ some t
        → t.phase ≡ checking
        → Step s (
            move_thread n
              (if s.world.is_running && (client_at s.world.server t.slot).is_active
                then receiving
                else cleaning)
              s)
    hear :
        (s : System) (n : ℕ) (t : ClientThread) (now : ℕ) (m : Message)
        → get_elem? s.threads n ≡ some t
        → t.phase ≡ receiving
        → validate_message now m ≡ true
        → Step s (move_thread n (answering m) (with_world (heard_at now s.world t.slot) s))
    break_off :
        (s : System) (n : ℕ) (t : ClientThread)
        → get_elem? s.threads n ≡ some t
        → t.phase ≡ receiving
        → Step s (move_thread n cleaning s)
    reply :
        (s : System) (n : ℕ) (t : ClientThread) (now : ℕ) (m : Message)
        → get_elem? s.threads n ≡ some t
        → t.phase ≡ answering m
        → (takes_mutex m.type ≡ true → mutex_free s.main ≡ true)
        → Step s (
            move_thread n (after_answer m.type) (
              with_world
                (answer net now m.type s.world m (client_at s.world.server t.slot).socket_fd)
                s))
    clean :
        (s : System) (n : ℕ) (t : ClientThread)
        → get_elem? s.threads n ≡ some t
        → t.phase ≡ cleaning
        → mutex_free s.main ≡ true
        → Step s (move_thread n ended (with_world (leave s.world t.slot) s))
    -- The monitor has tested `is_running` before it took the mutex.
    monitor :
        (s : System) (now : ℕ)
        → mutex_free s.main ≡ true
        → Step s (with_world (sweep net now s.world) s)
    signal :
        (s : System) (now : ℕ)
        → mutex_free s.main ≡ true
        → Step s (with_world (server_stop net now s.world) s)
    -- The loop of `server_start` has ended; `server_stop` then finds the server stopped.
    clean_up :
        (s : System)
        → s.main ≡ accepting
        → s.world.is_running ≡ false
        → Step s (record s { main = joining 0 })
    join :
        (s : System) (i : ℕ)
        → s.main ≡ joining i
        → i < max_clients
        → IsJoinable (client_at s.world.server i).thread_id s.threads
        → Step s (record s {
          world = record s.world {
            server = record s.world.server { clients = modify s.world.clients i reset_thread };
          };
          main = joining (i + 1);
        })
    finish :
        (s : System)
        → s.main ≡ joining max_clients
        → Step s (record s {
          world = record s.world {
            server = record s.world.server { server_socket = none };
            log = close_fd s.world.server_socket s.world.log;
          };
          main = finished;
        })

  -- Any number of steps.
  pub data Reach (s : System) : System → Type 0 where
    start : Reach s s
    then_step : (s' s'' : System) → Reach s s' → Step s' s'' → Reach s s''
