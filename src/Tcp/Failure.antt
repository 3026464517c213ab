-- ===== src/Tcp/Failure.antt =====
-- What becomes of a client for whom lab10/src/server.c cannot create a thread.
use cs_os.Prelude.{
  ℕ, ◌<◌, ◌≡◌, refl, sym, ap, ◌∙◌, subst, true, false, Option, none, some, ◌∷◌, arith, ==_iff,
  length, inl, inr, find_index-cases, First-lt, First-get_elem?, leb, get_elem?-modify_self,
  get_or_of_get_elem?,
}
use cs_os.Chat.Message.{Message, validate_client_id}
use cs_os.Chat.Protocol.{SockAddr}
use cs_os.Chat.Server.{
  ServerClient, Server, max_clients, no_client, client_at, is_free, enter, find_client_by_id,
}
use cs_os.Tcp.Server.{World, Network, closed, close_fd, add_client, remove_client}
use cs_os.Tcp.Server.Lifecycle.{give_thread, admit}
use cs_os.Tcp.System.{is_open}
use cs_os.Tcp.Sound.{IsClean}
use cs_os.Tcp.Sound.Admission.{add_client-free, add_client-full}

-- Removal of an active slot closes its descriptor.
remove_client-log :
    (w : World) (i fd : ℕ)
    → i < max_clients
    → (client_at w.server i).is_active ≡ true
    → (client_at w.server i).socket_fd ≡ some fd
    → (remove_client w i).log ≡ closed fd ∷ w.log
unfolding remove_client close_fd
remove_client-log w i fd l on e =
    let inside : leb max_clients i ≡ false = ground arith in rw (inside, on, e, remove_client) refl

closed_twice : (fd : ℕ) (w : World) → IsClean (closed fd ∷ closed fd ∷ w.log) → ⊥
unfolding is_open
closed_twice fd w c = ground (arith, c.0, ==_iff fd fd)

abbrev IsClosedTwice : World → ℕ → Option ℕ × World → Type 0
IsClosedTwice w fd r =
    (r.0 ≡ none) × (r.1.log ≡ closed fd ∷ closed fd ∷ w.log) × (IsClean r.1.log → ⊥)

module _ (net : Network) where
  give_thread-failed :
      (now : ℕ) (w : World) (fd k : ℕ) (m : Message) (s : Server)
      → k < max_clients
      → (client_at s k).is_active ≡ true
      → (client_at s k).socket_fd ≡ some fd
      → IsClosedTwice w fd (give_thread net now none w fd m (some k, s))
  unfolding give_thread
  give_thread-failed now w fd k m s l on e =
      let log = ap (◌∷◌ (closed fd)) (remove_client-log (record w { server = s }) k fd l on e) in
      (refl, log, λ c. closed_twice fd w (subst IsClean log c))

  -- Where `pthread_create` fails for a client that has been entered, the main thread closes the
  -- client's descriptor twice, and the second time it is not open.
  pub admit-thread_failed :
      (now : ℕ) (w : World) (fd k : ℕ) (addr : SockAddr) (m : Message)
      → length w.clients ≡ max_clients
      → validate_client_id (some m.sender_id) ≡ true
      → find_client_by_id w.server m.sender_id ≡ none
      → (add_client now w.server (some fd) addr m.sender_id).0 ≡ some k
      → ((admit net now none w fd addr m).0 ≡ none)
        × ((admit net now none w fd addr m).1.log ≡ closed fd ∷ closed fd ∷ w.log)
        × (IsClean (admit net now none w fd addr m).1.log → ⊥)
  unfolding admit
  admit-thread_failed now w fd k addr m size good new room =
      rw (good, new, admit)
        (elim (find_index-cases is_free w.clients) [
          | inl (_, e) ↦
              absurd (cc (ap (λ r. r.0) (add_client-full now w.server fd addr m.sender_id e), room))
          | inr (j, f, e) ↦
              let (c, at, _) = First-get_elem? is_free w.clients j f in
              let seat =
                get_or_of_get_elem? _ j _ no_client
                  (get_elem?-modify_self w.clients j (enter (some fd) addr m.sender_id now) c at) in
              subst (λ r. IsClosedTwice w fd (give_thread net now none w fd m r))
                (sym (add_client-free now w.server fd j addr m.sender_id e))
                (give_thread-failed now w fd j m _
                  (omega (arith, First-lt is_free w.clients j f, size))
                  (ap (λ (x : ServerClient). x.is_active) seat ∙ (unfold enter in refl))
                  (ap (λ (x : ServerClient). x.socket_fd) seat ∙ (unfold enter in refl)))
        ])
