-- ===== src/Tcp/Shutdown.antt =====
-- From a signal to `server_cleanup` in lab10/src/server.c, with a client connected.
use cs_os.Prelude.{
  ℕ, suc, ◌<◌, ◌≡◌, refl, ◌∙◌, true, false, not, arith, for_range-keeps, if-cases, if-keeps,
}
use cs_os.Chat.Server.{max_clients, client_at}
use cs_os.Chat.Server.Lifecycle.{dismiss}
use cs_os.Tcp.Server.{World, Network}
use cs_os.Tcp.Server.Lifecycle.{dismiss_client, server_stop}
use cs_os.Tcp.System.{
  MainPhase, accepting, joining, finished, System, mutex_free, Reach, signal, clean_up, start,
  then_step,
}
use cs_os.Tcp.Hang.{IsAlive, IsWaiting, thread_id-modify, Reach-IsWaiting}

-- The server has stopped, and slot `i` has this thread.
record IsHalted (i thread : ℕ) (w : World) : Type 0 where
  off : w.is_running ≡ false
  same : (client_at w.server i).thread_id ≡ thread

module _ (net : Network) (now i thread : ℕ) where
  dismiss_client-IsHalted :
      (k : ℕ) (w : World) → IsHalted i thread w → IsHalted i thread (dismiss_client net now k w)
  unfolding dismiss_client
  dismiss_client-IsHalted k w h =
      if-keeps (IsHalted i thread) (client_at w.server k).is_active _ _
        (record {
          off = h.off;
          same = thread_id-modify dismiss w.clients k i (λ c. unfold dismiss in refl) ∙ h.same;
        })
        h

  -- `server_stop` leaves the threads' ids in the slots.
  server_stop-IsHalted :
      (w : World)
      → (client_at w.server i).thread_id ≡ thread
      → IsHalted i thread (server_stop net now w)
  unfolding server_stop
  server_stop-IsHalted w e =
      if-cases (IsHalted i thread) (not w.is_running) w _
        (λ off. record { off = ground arith; same = e })
        (λ on.
          for_range-keeps (IsHalted i thread) (dismiss_client net now) dismiss_client-IsHalted 0
            max_clients _ (record { off = refl; same = e }))

-- Where the main thread is in accept and the thread of a slot is not at its end, a signal and the
-- cleanup that follows lead to a state from which main never ends.
pub signal-hangs :
    (net : Network) (now i n : ℕ) (s : System)
    → s.main ≡ accepting
    → i < max_clients
    → (client_at s.world.server i).thread_id ≡ suc n
    → IsAlive s.threads n
    → (t : System) × Reach net s t × ((u : System) → Reach net t u → u.main ≡ finished → ⊥)
signal-hangs net now i n s e l id a = (t, reached, λ u r. (Reach-IsWaiting net i n t u waiting r).0)
  where
    halted : IsHalted i (suc n) (server_stop net now s.world)
    halted = server_stop-IsHalted net now i (suc n) s.world id

    t : System
    t = record { world = server_stop net now s.world; main = joining 0; threads = s.threads }

    idle : (m : MainPhase) → m ≡ accepting → mutex_free m ≡ true
    idle m e = unfold mutex_free in rw e refl

    reached : Reach net s t
    reached =
        then_step _ t (then_step s _ start (signal s now (idle s.main e)))
          (clean_up (record s { world = server_stop net now s.world }) e halted.off)

    waiting : IsWaiting i n t
    waiting = record { at = (0, refl, omega arith); inside = l; thread = halted.same; alive = a }
