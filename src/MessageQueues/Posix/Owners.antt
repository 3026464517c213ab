-- ===== src/MessageQueues/Posix/Owners.antt =====
-- The queues that lab6/src/server_posix.c has open, and who closes them.
use cs_os.Prelude.{
  ℕ, ◌+◌, ◌≡◌, refl, Bool, true, false, List, [], ◌∷◌, arith, ◌==◌, ==_iff, if◌then◌else◌, total,
  Bool-cases, inl, inr,
}
use cs_os.MessageQueues.Posix.{
  opened, sent, closed, Log, is_open, Client, Server, Round, going, stopped, undefined,
  close_clients, cleanup,
}

abbrev pub one : ℕ → ℕ → ℕ
one a q = if q == a then 1 else 0

abbrev pub opens : ℕ → Log → ℕ
opens q log = if is_open q log then 1 else 0

abbrev pub holds : ℕ → Client → ℕ
holds q c = if c.active then one c.mqd q else 0

-- Every `mq_send` and every `mq_close` was of an open queue.
abbrev pub IsClean : Log → Type 0
IsClean [] = Unit
IsClean (closed q ∷ log) = (is_open q log ≡ true) × IsClean log
IsClean (opened q ∷ log) = IsClean log
IsClean (sent q text ok ∷ log) = (is_open q log ≡ true) × IsClean log

-- Every open queue is the server's own or that of one active client.
pub record Owned (s : Server) : Type 0 where
  pub clean : IsClean s.log
  pub owned : (q : ℕ) → one s.server_q q + total (holds q) s.clients ≡ opens q s.log

-- At the end everything is closed.
abbrev pub EndsClosed : Round → Type 0
EndsClosed (going s) = Owned s
EndsClosed (stopped s) = IsClean s.log × ((q : ℕ) → is_open q s.log ≡ false)
EndsClosed undefined = Unit

close-IsClean :
    (a : ℕ) (log : Log) (rest : ℕ → ℕ)
    → IsClean log
    → ((q : ℕ) → one a q + rest q ≡ opens q log)
    → IsClean (closed a ∷ log)
close-IsClean a log rest c o = (ground (arith, o a, ==_iff a a), c)

pub close_rest :
    (a : ℕ) (log : Log) (rest : ℕ → ℕ)
    → ((q : ℕ) → one a q + rest q ≡ opens q log)
    → (q : ℕ) → rest q ≡ opens q (closed a ∷ log)
unfolding is_open
close_rest a log rest o q = ground (arith, o q)

-- Behind the loop each active client's queue is closed once.
close_clients-rest :
    (cs : List Client) (log : Log) (rest : ℕ → ℕ)
    → IsClean log
    → ((q : ℕ) → total (holds q) cs + rest q ≡ opens q log)
    → IsClean (close_clients cs log) × ((q : ℕ) → rest q ≡ opens q (close_clients cs log))
unfolding close_clients
close_clients-rest [] log rest c o = (c, λ q. omega (arith, o q))
close_clients-rest (x ∷ cs) log rest c o = elim (Bool-cases x.active) [
  | inr off ↦ rw off (close_clients-rest cs log rest c (λ q. ground (arith, o q, off)))
  | inl on ↦ rw on (
      close_clients-rest cs (closed x.mqd ∷ log) rest
        (close-IsClean x.mqd log (others rest) c (first on))
        (λ q. close_rest x.mqd log (others rest) (first on) q))
]
  where
    others : (ℕ → ℕ) → ℕ → ℕ
    others rest q = total (holds q) cs + rest q

    first : x.active ≡ true → (q : ℕ) → one x.mqd q + others rest q ≡ opens q log
    first on q = ground (arith, o q, on)

pub cleanup-EndsClosed : (s : Server) → Owned s → EndsClosed (stopped (cleanup s))
unfolding cleanup
cleanup-EndsClosed s w =
    let (c, o) =
      close_clients-rest s.clients s.log (one s.server_q) w.clean (λ q. omega (arith, w.owned q)) in
    (
      close-IsClean s.server_q (close_clients s.clients s.log) (λ q. 0) c (λ q. omega (arith, o q)),
      λ q. shut (is_open q _) (
          close_rest s.server_q (close_clients s.clients s.log) (λ q. 0) (λ q. omega (arith, o q))
            q),
    )
  where
    shut : (b : Bool) → ◌≡◌ {A = ℕ} 0 (if b then 1 else 0) → b ≡ false
    shut true e = absurd (omega (arith, e))
    shut false e = refl
