-- ===== src/Tcp/Tests/Client.antt =====
-- A run of the client of lab10/src/client.c.
use cs_os.Prelude.{
  if◌then◌else◌, if-cases, arith, ℕ, ◌≡◌, refl, true, Option, none, some, List, [], ◌∷◌, pos,
}
use cs_os.Chat.CString.{codes, str_eq}
use cs_os.Chat.Message.{msg_alive, validate_client_id, is_digit, is_alnum}
use cs_os.Tcp.Client.{Client, fresh_client}
use cs_os.Tcp.Client.Main.{
  Happening, Outcome, typed, received, waiting, ended, overflowed, client_main, Leaving,
}
use cs_os.Tcp.Client.Leaving.{LeavesTidy, IsNew, IsFresh, client_main-LeavesTidy}
use cs_os.Tcp.Server.{Log}
use cs_os.Tcp.System.{is_open}
use cs_os.Tcp.Tests.{hello}
use cs_os.Tcp.Tests.Server.{slow}

-- What stands in the variable `client` before `client_init`.
abbrev blank : Client
blank = fresh_client [] [] 0

-- "ann" lists, writes to all, is asked for a sign of life, writes to "bob", and leaves.
abbrev visit : List Happening
visit =
    typed 4001 (codes "list")
    ∷ typed 4002 (codes "2all good day")
    ∷ received 4003 (pos 1248) (record hello { type = msg_alive })
    ∷ typed 4004 (codes "2one bob hi")
    ∷ typed 4005 (codes "quit")
    ∷ []

-- 8 and 9, where neither is open.
abbrev pipe_at : Log → Option (ℕ × ℕ)
pipe_at log = if is_open 8 log then none else if is_open 9 log then none else some (8, 9)

pipe_at-IsFresh : IsFresh pipe_at
pipe_at-IsFresh log =
    if-cases (λ p. IsNew p log) (is_open 8 log) _ _ (λ on. tt)
      (λ fa.
        if-cases (λ p. IsNew p log) (is_open 9 log) _ _ (λ on. tt)
          (λ fb. (λ e. absurd (omega (arith, e)), fa, fb)))

-- One more question comes just before the close, and is answered behind it.
abbrev asked_late : Leaving
asked_late = record { before_close = []; after_close = (true, (4009, pos 1248, hello)) ∷ [] }

abbrev visited : Outcome
visited =
    client_main slow (λ ip. some 7) blank (codes "ann") (codes "10.0.0.1") 9000 true (some 4) true
      4000 pipe_at (some 1) visit asked_late

client_main-LeavesTidy_example : LeavesTidy [] visited
client_main-LeavesTidy_example =
    client_main-LeavesTidy slow (λ ip. some 7) pipe_at pipe_at-IsFresh blank (codes "ann")
      (codes "10.0.0.1") 9000 true (some 4) true 4000 (some 1) visit asked_late

-- The run ends, and main returns 0.
status : Outcome → Option ℕ
status (waiting s) = none
status (ended n s) = some n
status overflowed = none

visited_status : status visited ≡ some 0
unfolding status client_main validate_client_id is_digit is_alnum str_eq is_open
visited_status = refl
