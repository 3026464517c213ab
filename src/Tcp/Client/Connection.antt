-- ===== src/Tcp/Client/Connection.antt =====
-- The descriptor of a client of lab10 (lab10/src/client.c): who has it open, and
-- the close in `client_disconnect`.
use cs_os.Prelude.{
  ℕ, ◌+◌, ◌≡◌, refl, sym, ap, ◌∙◌, Bool, true, false, some, ◌∷◌, arith, if◌then◌else◌, ==_iff,
  Bool-cases, Option-cases, inl, inr, if-keeps,
}
use cs_os.Tcp.Server.{Log, opened}
use cs_os.Tcp.System.{is_open}
use cs_os.Tcp.Sound.{one, opens, IsClean}
use cs_os.Tcp.Sound.Operations.{IsSilent, close_fd-IsClean, close_fd-owned}
use cs_os.Tcp.Client.{Session, client_stop, client_close}

-- The descriptor of the connection, where there is one.
abbrev pub connection : Session → ℕ → ℕ
connection s fd = if s.is_connected then one s.server_socket fd else 0

-- The descriptors that are open are those of `base` and that of the connection, and only open ones
-- were closed.
pub record Holds (base : Log) (s : Session) : Type 0 where
  pub clean : IsClean s.log
  pub owned : (fd : ℕ) → connection s fd + opens base fd ≡ opens s.log fd

pub opened-owned :
    (log : Log) (a : ℕ)
    → is_open a log ≡ false
    → (fd : ℕ) → one (some a) fd + opens log fd ≡ opens (opened a ∷ log) fd
unfolding is_open
opened-owned log a new fd = ground (arith, ==_iff fd a)

pub bit-injective : (a b : Bool) → ◌≡◌ {A = ℕ} (if a then 1 else 0) (if b then 1 else 0) → a ≡ b
bit-injective true true e = refl
bit-injective true false e = absurd (omega (arith, e))
bit-injective false true e = absurd (omega (arith, e))
bit-injective false false e = refl

pub silent-Holds :
    (base log : Log) (s : Session)
    → IsSilent s.log log
    → Holds base s
    → Holds base (record s { log = log })
silent-Holds base log s q h = record {
  clean = q.clean h.clean;
  owned = λ fd. h.owned fd ∙ ap (λ b. if b then 1 else 0) (sym (q.same fd));
}

pub client_stop-Holds : (base : Log) (s : Session) → Holds base s → Holds base (client_stop s)
unfolding client_stop
client_stop-Holds base s h = record { clean = h.clean; owned = h.owned }

-- Afterwards there is no connection.
pub client_close-idle : (s : Session) (fd : ℕ) → connection (client_close s) fd ≡ 0
unfolding client_close client_stop
client_close-idle s fd = elim (Option-cases s.server_socket) [
  | inl e ↦ rw (e, client_close) (if-keeps (λ n. n ≡ 0) s.is_connected _ 0 (rw e refl) refl)
  | inr (a, e) ↦ elim (Bool-cases s.is_connected) [
    | inl on ↦ rw (e, on, client_close) refl
    | inr off ↦ rw (e, off, client_close) refl
  ]
]

pub client_close-Holds : (base : Log) (s : Session) → Holds base s → Holds base (client_close s)
unfolding client_close client_stop
client_close-Holds base s h = elim (Option-cases s.server_socket) [
  | inl e ↦ rw (e, client_close) (record { clean = h.clean; owned = h.owned })
  | inr (a, e) ↦ elim (Bool-cases s.is_connected) [
    | inr off ↦
        rw (e, off, client_close)
          (record {
            clean = h.clean;
            owned = λ fd.
                ap (λ b. (if b then one s.server_socket fd else 0) + opens base fd) (sym off)
                ∙ h.owned fd;
          })
    | inl on ↦
        rw (e, on, client_close)
          (record {
            clean = close_fd-IsClean (some a) s.log (opens base) h.clean (owned a e on);
            owned =
                λ fd. omega (arith, close_fd-owned (some a) s.log (opens base) (owned a e on) fd);
          })
  ]
]
  where
    owned :
        (a : ℕ)
        → s.server_socket ≡ some a
        → s.is_connected ≡ true
        → (fd : ℕ) → one (some a) fd + opens base fd ≡ opens s.log fd
    owned a e on fd =
        ap (λ n. n + opens base fd)
          (sym (ap (λ b. if b then one s.server_socket fd else 0) on ∙ ap (λ o. one o fd) e))
        ∙ h.owned fd
