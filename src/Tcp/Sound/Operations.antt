-- ===== src/Tcp/Sound/Operations.antt =====
-- The operations of lab10/src/server.c keep the table and the descriptors.
use cs_os.Prelude.{
  ℕ, ◌+◌, ◌≡◌, refl, ◌∙◌, ap, sym, true, false, Option, none, some, ◌∷◌, arith, if◌then◌else◌,
  ==_iff, modify, Bool-cases, inl, inr, leb,
}
use cs_os.Chat.Message.{Message}
use cs_os.Chat.Server.{ServerClient, max_clients, client_at, vacate}
use cs_os.Chat.Server.Table.{IsQuiet}
use cs_os.Chat.Server.Invariant.{kept-IsValid, vacate-IsValid}
use cs_os.Tcp.Server.{World, Log, opened, closed, Network, send_to, close_fd, remove_client}
use cs_os.Tcp.System.{is_open}
use cs_os.Tcp.Sound.{one, held, opens, IsClean, Sound, held-kept, held-leave}

-- Nothing is opened or closed.
pub record IsSilent (log log' : Log) : Type 0 where
  pub same : (fd : ℕ) → is_open fd log' ≡ is_open fd log
  pub clean : IsClean log → IsClean log'

pub send_to-IsSilent :
    (net : Network) (fd : Option ℕ) (m : Message) (log : Log)
    → IsSilent log (send_to net fd m log).1
unfolding send_to is_open
send_to-IsSilent net none m log = record { same = λ fd. refl; clean = λ c. c }
send_to-IsSilent net (some a) m log = record { same = λ fd. refl; clean = λ c. c }

pub silent-Sound :
    (p : Option ℕ) (w : World) (log : Log)
    → IsSilent w.log log
    → Sound p w
    → Sound p (record w { log = log })
silent-Sound p w log q s = record {
  valid = s.valid;
  clean = q.clean s.clean;
  owned = λ fd. s.owned fd ∙ ap (λ b. if b then 1 else 0) (sym (q.same fd));
}

-- A slot that stays as active as it was, with its descriptor.
pub kept-Sound :
    (f : ServerClient → ServerClient) (p : Option ℕ) (w : World) (i : ℕ)
    → IsQuiet f
    → ((c : ServerClient) → (f c).is_active ≡ c.is_active)
    → ((c : ServerClient) → (f c).socket_fd ≡ c.socket_fd)
    → Sound p w
    → Sound p (record w { server = record w.server { clients = modify w.clients i f } })
kept-Sound f p w i q on same s = record {
  valid = kept-IsValid f w.server i q on s.valid;
  clean = s.clean;
  owned = λ fd. omega (arith, held-kept f w.clients i fd on same, s.owned fd);
}

-- Who closes an open descriptor that he owns leaves the others to their owners.
pub close_fd-IsClean :
    (o : Option ℕ) (log : Log) (rest : ℕ → ℕ)
    → IsClean log
    → ((fd : ℕ) → one o fd + rest fd ≡ opens log fd)
    → IsClean (close_fd o log)
unfolding close_fd
close_fd-IsClean none log rest c owned = c
close_fd-IsClean (some a) log rest c owned = (ground (arith, owned a, ==_iff a a), c)

pub close_fd-owned :
    (o : Option ℕ) (log : Log) (rest : ℕ → ℕ)
    → ((fd : ℕ) → one o fd + rest fd ≡ opens log fd)
    → (fd : ℕ) → rest fd ≡ opens (close_fd o log) fd
unfolding close_fd is_open
close_fd-owned none log rest owned fd = omega (arith, owned fd)
close_fd-owned (some a) log rest owned fd = ground (arith, owned fd)

pub remove_client-Sound :
    (p : Option ℕ) (w : World) (i : ℕ) → Sound p w → Sound p (remove_client w i)
unfolding remove_client
remove_client-Sound p w i s = elim (Bool-cases (leb max_clients i)) [
  | inl e ↦ rw (e, remove_client) s
  | inr e ↦ elim (Bool-cases (client_at w.server i).is_active) [
    | inr off ↦ rw (e, off, remove_client) s
    | inl on ↦
        rw (e, on, remove_client)
          (record {
            valid = vacate-IsValid w.server i on s.valid;
            clean = close_fd-IsClean (client_at w.server i).socket_fd w.log _ s.clean (owned on);
            owned = close_fd-owned (client_at w.server i).socket_fd w.log _ (owned on);
          })
  ]
]
  where
    owned :
        ((client_at w.server i).is_active ≡ true)
        → (fd : ℕ)
        → one (client_at w.server i).socket_fd fd
            + (one w.server_socket fd + one p fd + held (modify w.clients i vacate) fd)
          ≡ opens w.log fd
    owned on fd =
        omega (arith, held-leave vacate w.clients i fd (λ c. unfold vacate in refl) on, s.owned fd)

-- The main thread closes the descriptor of a client that it has not let in.
pub give_up-Sound :
    (w : World) (fd : ℕ) → Sound (some fd) w → Sound none (record w { log = closed fd ∷ w.log })
give_up-Sound w fd s = record {
  valid = s.valid;
  clean = unfold close_fd in close_fd-IsClean (some fd) w.log rest s.clean owned;
  owned = unfold close_fd in close_fd-owned (some fd) w.log rest owned;
}
  where
    rest : ℕ → ℕ
    rest g = one w.server_socket g + 0 + held w.clients g

    owned : (g : ℕ) → one (some fd) g + rest g ≡ opens w.log g
    owned g = omega (arith, s.owned g)

-- A descriptor that was not open.
pub accept-Sound :
    (w : World) (fd : ℕ)
    → is_open fd w.log ≡ false
    → Sound none w
    → Sound (some fd) (record w { log = opened fd ∷ w.log })
unfolding is_open
accept-Sound w fd new s = record {
  valid = s.valid;
  clean = s.clean;
  owned = λ g. ground (arith, s.owned g, s.owned fd, ==_iff g fd);
}
