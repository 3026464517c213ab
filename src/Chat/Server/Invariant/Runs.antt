-- ===== src/Chat/Server/Invariant/Runs.antt =====
-- The server as its two threads run it (lab11/src/server.c): the receiving thread, the monitor, and
-- a signal that stops the server, in any interleaving of the parts that `clients_mutex` makes whole.
use cs_os.Prelude.{
  ℕ, ◌≡◌, refl, Bool, true, false, Option, none, some, [], arith, if-keeps, for_range-keeps,
  for_range, replicate, length-replicate, zero, suc, pos, ap, sym, if◌then◌else◌,
}
use cs_os.Chat.CString.Laws.{length-zeros}
use cs_os.Chat.Message.{Message, validate_message, max_client_name}
use cs_os.Chat.Protocol.{SockAddr, Sendto}
use cs_os.Chat.Server.{World, max_clients}
use cs_os.Chat.Server.Handlers.{register, dispatch}
use cs_os.Chat.Server.Keepalive.{sweep}
use cs_os.Chat.Server.Lifecycle.{fresh_server, close_fd, dismiss_client, server_stop, empty_slot}
use cs_os.Chat.Server.Table.{IsTable, count_active}
use cs_os.Chat.Server.Invariant.Updates.{IsValid, dismiss-IsValid}
use cs_os.Chat.Server.Invariant.Requests.{Sound, register-IsValid, dispatch-IsValid, sweep-IsValid}

-- `server_stop` counts nobody down, but the server is then no longer running.
module _ (sendto : Sendto) (now : ℕ) where
  record Stopped (w : World) : Type 0 where
    valid : IsValid w.server
    off : w.is_running ≡ false

  dismiss_client-Stopped : (i : ℕ) (w : World) → Stopped w → Stopped (dismiss_client sendto now i w)
  unfolding dismiss_client
  dismiss_client-Stopped i w s =
      if-keeps Stopped _ _ _
        (record { valid = dismiss-IsValid w.server i s.off s.valid; off = s.off }) s

  stop-Sound : (w : World) → Sound w → Sound (server_stop sendto now w)
  unfolding server_stop
  stop-Sound w s = if-keeps Sound _ _ _ s (record { valid = stopped.valid })
    where
      halted : World
      halted = record {
        server = record w.server { is_running = false; server_socket = none };
        log = close_fd w.server_socket w.log;
      }

      halted-IsValid : IsValid halted.server
      halted-IsValid = record { slots = s.valid.slots; table = s.valid.table; counted = λ on. cc }

      stopped : Stopped (for_range (dismiss_client sendto now) 0 max_clients halted)
      stopped =
          for_range-keeps Stopped _ dismiss_client-Stopped 0 max_clients halted
            (record { valid = halted-IsValid; off = refl })

  pub server_stop-IsValid :
      (w : World) → IsValid w.server → IsValid (server_stop sendto now w).server
  server_stop-IsValid w v = (stop-Sound w (record { valid = v })).valid

-- The table that `server_init` makes.
replicate-IsTable : (n : ℕ) → IsTable (replicate n empty_slot)
replicate-IsTable zero = tt
replicate-IsTable (suc n) = (
  record { name_size = length-zeros max_client_name; named = λ on. cc },
  λ on. cc,
  replicate-IsTable n,
)

pub count_active-replicate : (n : ℕ) → count_active (replicate n empty_slot) ≡ 0
unfolding count_active
count_active-replicate zero = refl
count_active-replicate (suc n) = omega (arith, count_active-replicate n)

pub fresh_server-IsValid : (port : ℕ) → IsValid (fresh_server port)
unfolding fresh_server
fresh_server-IsValid port = record {
  slots = length-replicate max_clients empty_slot;
  table = replicate-IsTable max_clients;
  counted = λ on. cc;
}

-- What the two threads can see of one another's work: the world, and the message that the receiving
-- thread has registered and not yet answered, which it holds outside `clients_mutex`.
pub record System : Type 0 where
  pub world : World
  pub pending : Option (Message × SockAddr × ℕ)

-- What `register` leaves for the receiving thread to do.
unfoldable pub registered : Bool × World → Message → SockAddr → ℕ → System
registered (go_on, w) msg addr addr_len = record {
  world = w;
  pending = if go_on then some (msg, addr, addr_len) else none;
}

-- One part that runs whole.
pub data Step (sendto : Sendto) (s t : System) : Type 0 where
  take_request :
      (now : ℕ) (msg : Message) (addr : SockAddr) (addr_len : ℕ)
      → s.world.is_running ≡ true
      → s.pending ≡ none
      → validate_message now msg ≡ true
      → t ≡ registered (register sendto now s.world msg addr addr_len) msg addr addr_len
      → Step sendto s t
  answer :
      (now : ℕ) (msg : Message) (addr : SockAddr) (addr_len : ℕ)
      → s.pending ≡ some (msg, addr, addr_len)
      → t
        ≡ record { world = dispatch sendto now msg.type s.world msg addr addr_len; pending = none }
      → Step sendto s t
  monitor : (now : ℕ) → t ≡ record s { world = sweep sendto now s.world } → Step sendto s t
  signal : (now : ℕ) → t ≡ record s { world = server_stop sendto now s.world } → Step sendto s t

pub data Reach (sendto : Sendto) (s : System) : System → Type 0 where
  here : Reach sendto s s
  later : {t u : System} → Reach sendto s t → Step sendto t u → Reach sendto s u

-- The server that `server_start` runs after a successful `server_init`.
unfoldable pub started : ℕ → ℕ → Option ℕ → System
unfolding fresh_server
started port thread socket = record {
  world = record {
    server = record (fresh_server port) {
      server_socket = socket;
      is_running = true;
      keepalive_thread = thread;
    };
    log = [];
  };
  pending = none;
}

Step-IsValid :
    {sendto : Sendto} {s t : System}
    → Step sendto s t
    → IsValid s.world.server
    → IsValid t.world.server
unfolding registered
Step-IsValid {sendto} {s} (take_request now msg addr addr_len run idle ok e) v =
    rw e (register-IsValid sendto now s.world msg addr addr_len v)
Step-IsValid {sendto} {s} (answer now msg addr addr_len p e) v =
    rw e (dispatch-IsValid sendto now msg.type s.world msg addr addr_len v)
Step-IsValid {sendto} {s} (monitor now e) v = rw e (sweep-IsValid sendto now s.world v)
Step-IsValid {sendto} {s} (signal now e) v = rw e (server_stop-IsValid sendto now s.world v)

started-IsValid :
    (port thread : ℕ) (socket : Option ℕ) → IsValid (started port thread socket).world.server
unfolding started
started-IsValid port thread socket =
    let v = fresh_server-IsValid port in
    record {
      slots = unfold fresh_server in v.slots;
      table = unfold fresh_server in v.table;
      counted = λ on. unfold fresh_server in ap pos (sym (count_active-replicate max_clients));
    }

-- However the receiving thread, the monitor and signals are interleaved, and whatever arrives, in
-- every state that the started server reaches the table has its 255 slots, every active one has a
-- name of the accepted form, no two active ones share a name, and `client_count` is the number of
-- active slots while the server runs.
pub Reach-IsValid :
    (port thread : ℕ) (socket : Option ℕ) {sendto : Sendto} {s : System}
    → Reach sendto (started port thread socket) s
    → IsValid s.world.server
Reach-IsValid port thread socket here = started-IsValid port thread socket
Reach-IsValid port thread socket (later r st) = Step-IsValid st (Reach-IsValid port thread socket r)
