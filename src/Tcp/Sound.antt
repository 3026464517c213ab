-- ===== src/Tcp/Sound.antt =====
-- What lab10/src/server.c keeps of its table and its descriptors: the changes of one slot.
pub mod Operations
pub mod Requests
pub mod Admission
pub mod Steps
use cs_os.Prelude.{
  ℕ, zero, suc, ◌+◌, ◌≡◌, refl, ◌∙◌, ap, sym, Bool, true, false, ◌&&◌, Option, none, some, List, [],
  ◌∷◌, arith, if◌then◌else◌, ◌==◌, modify, get_or, First, Bool-cases, inl, inr, leb,
}
use cs_os.Chat.Protocol.{SockAddr}
use cs_os.Chat.Message.{Message}
use cs_os.Chat.Server.{
  ServerClient, Server, max_clients, client_at, no_client, is_free, enter, vacate,
}
use cs_os.Chat.Server.Invariant.{IsValid}
use cs_os.Tcp.Server.{World, Log, Event, opened, closed, sent, Network, send_to, close_fd}
use cs_os.Tcp.System.{is_open}

-- 1 where the descriptor is `fd`.
abbrev pub one : Option ℕ → ℕ → ℕ
one none fd = 0
one (some a) fd = if fd == a then 1 else 0

-- The number of active slots that have the descriptor.
abbrev pub held : List ServerClient → ℕ → ℕ
held [] fd = 0
held (c ∷ cs) fd = (if c.is_active then one c.socket_fd fd else 0) + held cs fd

-- Every `close` was of an open descriptor.
abbrev pub IsClean : Log → Type 0
IsClean [] = Unit
IsClean (closed fd ∷ log) = (is_open fd log ≡ true) × IsClean log
IsClean (_ ∷ log) = IsClean log

abbrev pub opens : Log → ℕ → ℕ
opens log fd = if is_open fd log then 1 else 0

-- The table is well-formed, no descriptor was closed twice, and every open descriptor has one
-- owner: the listening socket's variable, the main thread for the client that it lets in
-- (`pending`), or an active slot.
pub record Sound (pending : Option ℕ) (w : World) : Type 0 where
  pub valid : IsValid w.server
  pub clean : IsClean w.log
  pub owned :
      (fd : ℕ) → one w.server_socket fd + one pending fd + held w.clients fd ≡ opens w.log fd

pub held-kept :
    (f : ServerClient → ServerClient) (cs : List ServerClient) (k fd : ℕ)
    → ((c : ServerClient) → (f c).is_active ≡ c.is_active)
    → ((c : ServerClient) → (f c).socket_fd ≡ c.socket_fd)
    → held (modify cs k f) fd ≡ held cs fd
held-kept f [] k fd on same = refl
held-kept f (c ∷ cs) zero fd on same = rw (on c, same c) refl
held-kept f (c ∷ cs) (suc k) fd on same = ap (◌+◌ _) (held-kept f cs k fd on same)

pub held-enter :
    (f : ServerClient → ServerClient) (cs : List ServerClient) (k a fd : ℕ)
    → ((c : ServerClient) → (f c).is_active ≡ true)
    → ((c : ServerClient) → (f c).socket_fd ≡ some a)
    → First is_free cs k
    → held (modify cs k f) fd ≡ one (some a) fd + held cs fd
held-enter f [] k a fd on at h = absurd h
held-enter f (c ∷ cs) zero a fd on at h = rw (on c, at c) (ground arith)
held-enter f (c ∷ cs) (suc k) a fd on at h = ground (arith, held-enter f cs k a fd on at h.1)

pub held-leave :
    (f : ServerClient → ServerClient) (cs : List ServerClient) (k fd : ℕ)
    → ((c : ServerClient) → (f c).is_active ≡ false)
    → (get_or cs k no_client).is_active ≡ true
    → one (get_or cs k no_client).socket_fd fd + held (modify cs k f) fd ≡ held cs fd
held-leave f [] k fd off on = cc
held-leave f (c ∷ cs) zero fd off on = rw (off c, on) (omega arith)
held-leave f (c ∷ cs) (suc k) fd off on = ground (arith, held-leave f cs k fd off on)
