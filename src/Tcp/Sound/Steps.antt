-- ===== src/Tcp/Sound/Steps.antt =====
-- Every interleaving of the threads of lab10/src/server.c keeps the table and the descriptors.
use cs_os.Prelude.{
  ℕ, ◌+◌, ◌≡◌, refl, ap, sym, subst, Option, none, some, arith, length, pos, true, false, Bool,
  replicate, zero, suc, [], ◌∷◌, if-keeps, ltb, ◌||◌, ℤ,
}
use cs_os.Chat.Server.{max_clients}
use cs_os.Chat.Server.Lifecycle.{fresh_server, empty_slot, port_min, port_max}
use cs_os.Chat.Server.Invariant.{IsValid}
use cs_os.Chat.Server.Invariant.Runs.{fresh_server-IsValid, count_active-replicate}
use cs_os.Tcp.Server.{World, Network, close_fd, opened}
use cs_os.Tcp.Server.Lifecycle.{admit, server_init, create_server_socket, started}
use cs_os.Tcp.System.{
  MainPhase, identifying, System, server_start, Step, Reach, accept, give_up, identify, greet,
  check, hear, break_off, reply, clean, monitor, signal, clean_up, join, finish, start, then_step,
  after_admit, reset_thread, is_open,
}
use cs_os.Tcp.Sound.{Sound, one, held, opens, IsClean}
use cs_os.Tcp.Sound.Operations.{
  kept-Sound, give_up-Sound, accept-Sound, close_fd-IsClean, close_fd-owned,
}
use cs_os.Tcp.Sound.Requests.{heard_at-Sound, leave-Sound, sweep-Sound, answer-Sound}
use cs_os.Tcp.Sound.Admission.{admit-Sound, server_stop-Sound, welcome-Sound, reset_thread-IsQuiet}

-- The descriptor that the main thread holds.
abbrev pub pending : MainPhase → Option ℕ
pending (identifying fd addr) = some fd
pending _ = none

abbrev pub IsSound : System → Type 0
IsSound s = Sound (pending s.main) s.world

-- `is_sound` for the phase that the main thread is in.
at_phase : {m : MainPhase} (s : System) → s.main ≡ m → IsSound s → Sound (pending m) s.world
at_phase s e h = subst (λ m. Sound (pending m) s.world) e h

pending-after_admit : (i : Option ℕ) (fd : ℕ) → pending (after_admit i fd) ≡ none
unfolding after_admit
pending-after_admit none fd = refl
pending-after_admit (some i) fd = refl

finish-Sound :
    (w : World)
    → Sound none w
    → Sound none (record w {
      server = record w.server { server_socket = none };
      log = close_fd w.server_socket w.log;
    })
finish-Sound w s = record {
  valid = record { slots = s.valid.slots; table = s.valid.table; counted = s.valid.counted };
  clean = close_fd-IsClean w.server_socket w.log (held w.clients) s.clean owned;
  owned = λ fd. omega (arith, close_fd-owned w.server_socket w.log (held w.clients) owned fd);
}
  where
    owned : (fd : ℕ) → one w.server_socket fd + held w.clients fd ≡ opens w.log fd
    owned fd = omega (arith, s.owned fd)

Step-IsSound : (net : Network) (s s' : System) → Step net s s' → IsSound s → IsSound s'
Step-IsSound net _ _ (accept s fd addr e on new) h = accept-Sound s.world fd new (at_phase s e h)
Step-IsSound net _ _ (give_up s fd addr e) h = give_up-Sound s.world fd (at_phase s e h)
Step-IsSound net _ _ (identify s fd addr now m e v) h =
    subst (λ p. Sound p (admit net now (some (length s.threads + 1)) s.world fd addr m).1)
      (sym (pending-after_admit _ fd))
      (admit-Sound net now (length s.threads + 1) s.world fd addr m (at_phase s e h))
Step-IsSound net _ _ (greet s fd now e) h = welcome-Sound net now s.world fd (at_phase s e h)
Step-IsSound net _ _ (check s n t e c) h = h
Step-IsSound net _ _ (hear s n t now m e c v) h = heard_at-Sound now _ s.world t.slot h
Step-IsSound net _ _ (break_off s n t e c) h = h
Step-IsSound net _ _ (reply s n t now m e c f) h = answer-Sound net now m.type _ s.world m _ h
Step-IsSound net _ _ (clean s n t e c f) h = leave-Sound _ s.world t.slot h
Step-IsSound net _ _ (monitor s now f) h = sweep-Sound net now _ s.world h
Step-IsSound net _ _ (signal s now f) h = server_stop-Sound net now _ s.world h
Step-IsSound net _ _ (clean_up s e off) h = at_phase s e h
Step-IsSound net _ _ (join s i e l j) h =
    kept-Sound reset_thread none s.world i reset_thread-IsQuiet (λ c. unfold reset_thread in refl)
      (λ c. unfold reset_thread in refl) (at_phase s e h)
Step-IsSound net _ _ (finish s e) h = finish-Sound s.world (at_phase s e h)

Reach-IsSound : (net : Network) (s s' : System) → IsSound s → Reach net s s' → IsSound s'
Reach-IsSound net s _ h start = h
Reach-IsSound net s _ h (then_step s' s'' r st) =
    Step-IsSound net s' s'' st (Reach-IsSound net s s' h r)

held-replicate : (n fd : ℕ) → held (replicate n empty_slot) fd ≡ 0
held-replicate zero fd = refl
held-replicate (suc n) fd = omega (arith, held-replicate n fd)

-- What `server_init` leaves where it returns 0.
abbrev pub ready : ℕ → ℕ → World
ready port fd = record {
  server = record (fresh_server port) { server_socket = some fd };
  log = opened fd ∷ [];
}

pub ready-Sound : (port fd thread : ℕ) → Sound none (started thread (ready port fd))
unfolding fresh_server is_open started
ready-Sound port fd thread = record {
  valid =
      let v = fresh_server-IsValid port in
      record {
        slots = v.slots;
        table = v.table;
        counted = λ on. ap pos (sym (count_active-replicate max_clients));
      };
  clean = tt;
  owned = λ g. ground (arith, held-replicate max_clients g);
}

-- A status and a world that is ready where the status is 0.
abbrev Granted : ℕ → ℤ × World → Type 0
Granted port r = r.0 ≡ pos 0 → (fd : ℕ) × (r.1 ≡ ready port fd)

server_init-Granted :
    (w : World) (port : ℕ) (mutex_ok : Bool) (socket : Option ℕ)
    (configured bind_ok listen_ok : Bool)
    → w.log ≡ []
    → Granted port (server_init w port mutex_ok socket configured bind_ok listen_ok)
unfolding server_init create_server_socket
server_init-Granted w port false socket configured bind_ok listen_ok e =
    if-keeps (Granted port) (ltb port port_min || ltb port_max port) _ _ (λ ok. cc) (λ ok. cc)
server_init-Granted w port true none configured bind_ok listen_ok e =
    if-keeps (Granted port) (ltb port port_min || ltb port_max port) _ _ (λ ok. cc) (λ ok. cc)
server_init-Granted w port true (some fd) false bind_ok listen_ok e =
    if-keeps (Granted port) (ltb port port_min || ltb port_max port) _ _ (λ ok. cc) (λ ok. cc)
server_init-Granted w port true (some fd) true false listen_ok e =
    if-keeps (Granted port) (ltb port port_min || ltb port_max port) _ _ (λ ok. cc) (λ ok. cc)
server_init-Granted w port true (some fd) true true false e =
    if-keeps (Granted port) (ltb port port_min || ltb port_max port) _ _ (λ ok. cc) (λ ok. cc)
server_init-Granted w port true (some fd) true true true e =
    if-keeps (Granted port) (ltb port port_min || ltb port_max port) _ _ (λ ok. cc)
      (λ ok. (
        fd,
        ap
            (λ log. record {
              server = record (fresh_server port) { server_socket = some fd };
              log = opened fd ∷ log;
            })
            e,
      ))

pub server_start-IsSound :
    (net : Network) (port fd now : ℕ) (thread : Option ℕ)
    → IsSound (server_start net now thread (ready port fd))
server_start-IsSound net port fd now (some thread) = ready-Sound port fd thread
server_start-IsSound net port fd now none =
    server_stop-Sound net now none _ (ready-Sound port fd (ready port fd).keepalive_thread)

Reach-Sound :
    (net : Network) (w : World) (port now : ℕ) (thread : Option ℕ) (mutex_ok : Bool)
    (socket : Option ℕ) (configured bind_ok listen_ok : Bool) (s : System)
    → w.log ≡ []
    → (server_init w port mutex_ok socket configured bind_ok listen_ok).0 ≡ pos 0
    → Reach net
        (server_start net now thread
          (server_init w port mutex_ok socket configured bind_ok listen_ok).1)
        s
    → IsSound s
Reach-Sound net w port now thread mutex_ok socket configured bind_ok listen_ok s e ok r =
    let (fd, q) = server_init-Granted w port mutex_ok socket configured bind_ok listen_ok e ok in
    Reach-IsSound net _ s
      (subst (λ v. IsSound (server_start net now thread v)) (sym q)
        (server_start-IsSound net port fd now thread))
      r

-- However the main thread, the clients' threads, the monitor and signals are interleaved, and
-- whatever the network does, where `pthread_create` does not fail: a server that `server_init` has
-- made with status 0 closes only descriptors that are open, and in every state each descriptor that
-- it has opened and not closed has exactly one owner, the listening socket's variable, the client
-- that is being let in, or one active slot; a descriptor that is not open has none.
pub Reach-owned :
    (net : Network) (w : World) (port now : ℕ) (thread : Option ℕ) (mutex_ok : Bool)
    (socket : Option ℕ) (configured bind_ok listen_ok : Bool) (s : System)
    → w.log ≡ []
    → (server_init w port mutex_ok socket configured bind_ok listen_ok).0 ≡ pos 0
    → Reach net
        (server_start net now thread
          (server_init w port mutex_ok socket configured bind_ok listen_ok).1)
        s
    → IsClean s.world.log
      × ((fd : ℕ)
          → one s.world.server_socket fd + one (pending s.main) fd + held s.world.clients fd
            ≡ opens s.world.log fd)
Reach-owned net w port now thread mutex_ok socket configured bind_ok listen_ok s e ok r =
    let h =
      Reach-Sound net w port now thread mutex_ok socket configured bind_ok listen_ok s e ok r in
    (h.clean, h.owned)

-- Under the same conditions, in every state the table has its 255 slots, every active one has a
-- name of the accepted form, no two active ones share a name, and `client_count` is the number of
-- active slots while the server runs.
pub Reach-table :
    (net : Network) (w : World) (port now : ℕ) (thread : Option ℕ) (mutex_ok : Bool)
    (socket : Option ℕ) (configured bind_ok listen_ok : Bool) (s : System)
    → w.log ≡ []
    → (server_init w port mutex_ok socket configured bind_ok listen_ok).0 ≡ pos 0
    → Reach net
        (server_start net now thread
          (server_init w port mutex_ok socket configured bind_ok listen_ok).1)
        s
    → IsValid s.world.server
Reach-table net w port now thread mutex_ok socket configured bind_ok listen_ok s e ok r =
    (Reach-Sound net w port now thread mutex_ok socket configured bind_ok listen_ok s e ok r).valid
