-- ===== src/MessageQueues/Posix/Rounds.antt =====
-- The rounds of lab6/src/server_posix.c keep each open queue with one owner.
use cs_os.Prelude.{
  ℕ, ◌+◌, ◌≡◌, ◌≤◌, refl, sym, ap, ◌∙◌, true, false, ◌&&◌, not, Option, none, some, List, [], ◌∷◌,
  ◌++◌, arith, ==_iff, if◌then◌else◌, take, get_elem?, modify, total, total-modify, total-replicate,
  get_elem?-modify_self, find_index-cases, First-get_elem?, Bool-cases, Option-cases, inl, inr,
  if-keeps, ℤ, pos, eq_ℤ,
}
use cs_os.Chat.CString.{codes, cstr, str_eq}
use cs_os.MessageQueues.{msg_size, print_int, scan_message, scan_path, after_prefix, max_clients}
use cs_os.MessageQueues.Posix.{
  opened, sent, Log, is_open, Queues, Client, Server, fresh_server, Round, going, stopped,
  undefined, is_inactive, leave, cleanup, enter, init, send_others, message, serve, serve_all,
}
use cs_os.MessageQueues.Posix.Owners.{
  one, opens, holds, IsClean, Owned, EndsClosed, close_rest, cleanup-EndsClosed,
}

-- Nothing is opened or closed.
record IsSilent (log log' : Log) : Type 0 where
  same : (q : ℕ) → is_open q log' ≡ is_open q log
  clean : IsClean log → IsClean log'

opens-opened :
    (a q : ℕ) (log : Log) → is_open a log ≡ false → opens q (opened a ∷ log) ≡ one a q + opens q log
unfolding is_open
opens-opened a q log new = ground (arith, ==_iff q a)

fresh_server-Owned : (q : ℕ) → Owned (fresh_server q)
unfolding fresh_server is_open
fresh_server-Owned q = record {
  clean = tt;
  owned = λ a. ground (
    arith,
    total-replicate (holds a) max_clients (record { active = false; mqd = 0; name = [] }) refl,
  );
}

module _ (os : Queues) where
  send_others-IsSilent :
      (i : ℕ) (sender : ℤ) (out : List ℕ) (cs : List Client) (log : Log)
      → ((q : ℕ) → total (holds q) cs ≤ opens q log)
      → IsSilent log (send_others os i sender out cs log)
  unfolding send_others is_open
  send_others-IsSilent i sender out [] log o = record { same = λ q. refl; clean = λ c. c }
  send_others-IsSilent i sender out (c ∷ cs) log o =
      elim (Bool-cases (c.active && not (eq_ℤ (pos i) sender))) [
        | inr e ↦ rw e (send_others-IsSilent (i + 1) sender out cs log others)
        | inl e ↦
            let rest =
              send_others-IsSilent (i + 1) sender out cs
                (sent c.mqd out (os.mq_send log c.mqd out) ∷ log) others in
            rw e (record { same = rest.same; clean = λ k. rest.clean (reaches e, k) })
      ]
    where
      others : (q : ℕ) → total (holds q) cs ≤ opens q log
      others q = omega (arith, o q)

      reaches : (c.active && not (eq_ℤ (pos i) sender)) ≡ true → is_open c.mqd log ≡ true
      reaches e = ground (arith, e, o c.mqd, ==_iff c.mqd c.mqd)

  message-Owned : (s : Server) (text : List ℕ) → Owned s → Owned (message os s text)
  unfolding message
  message-Owned s text w = elim (Option-cases (scan_message text)) [
    | inl e ↦ rw (e, message) w
    | inr ((sender, t), e) ↦
        let quiet =
          send_others-IsSilent 0 sender
            (take (msg_size + 17) (codes "From " ++ print_int sender ++ codes ": " ++ t)) s.clients
            s.log (λ q. omega (arith, w.owned q)) in
        rw (e, message)
          (record {
            clean = quiet.clean w.clean;
            owned = λ q. w.owned q ∙ ap (λ b. if b then 1 else 0) (sym (quiet.same q));
          })
  ]

  module _ (s : Server) (slot cq : ℕ) (name : List ℕ) (c : Client) where
    abbrev new_client : Client
    new_client = record { active = true; mqd = cq; name = name }

    abbrev entered : List Client
    entered = modify s.clients slot (λ _. new_client)

    module _ (at : get_elem? s.clients slot ≡ some c) (off : c.active ≡ false)
        (new : is_open cq s.log ≡ false) (w : Owned s) where
      entered-holds : (q : ℕ) → total (holds q) entered ≡ one cq q + total (holds q) s.clients
      entered-holds q = ground (arith, total-modify (holds q) s.clients slot (λ _. new_client) c at)

      left-holds : (q : ℕ) → total (holds q) (modify entered slot leave) ≡ total (holds q) s.clients
      unfolding leave
      left-holds q =
          let t =
            total-modify (holds q) entered slot leave new_client
              (get_elem?-modify_self s.clients slot (λ _. new_client) c at) in
          omega (arith, t, entered-holds q)

      with_new :
          (q : ℕ)
          → one cq q + (one s.server_q q + total (holds q) s.clients) ≡ opens q (opened cq ∷ s.log)
      with_new q = omega (arith, w.owned q, opens-opened cq q s.log new)

      tells : is_open cq (opened cq ∷ s.log) ≡ true
      unfolding is_open
      tells = ground (arith, ==_iff cq cq)

      enter-Owned : Owned (enter os s slot cq name)
      unfolding enter is_open
      enter-Owned =
          if-keeps Owned (os.mq_send (opened cq ∷ s.log) cq (codes "ID " ++ print_int (pos slot))) _
            _
            (record {
              clean = (tells, w.clean);
              owned = λ q. omega (arith, entered-holds q, with_new q);
            })
            (record {
              clean = (tells, (tells, w.clean));
              owned = λ q. omega (
                arith,
                left-holds q,
                close_rest cq (opened cq ∷ s.log)
                    (λ q. one s.server_q q + total (holds q) s.clients) with_new q,
              );
            })

  init-EndsClosed : (s : Server) (text : List ℕ) → Owned s → EndsClosed (init os s text)
  unfolding init is_inactive
  init-EndsClosed s text w = elim (find_index-cases is_inactive s.clients) [
    | inl (n, q) ↦ rw (q, init) w
    | inr (slot, f, q) ↦ elim (Option-cases (scan_path text)) [
      | inl e ↦ rw (q, e, init) tt
      | inr (name, e) ↦ elim (Option-cases (os.mq_open s.log name)) [
        | inl r ↦ rw (q, e, r, init) w
        | inr (cq, r) ↦
            let (c, at, off) = First-get_elem? is_inactive s.clients slot f in
            rw (q, e, r, init)
              (enter-Owned s slot cq name c at (ground arith) (os.fresh s.log name cq r) w)
      ]
    ]
  ]

  serve-EndsClosed : (s : Server) (bytes : List ℕ) → Owned s → EndsClosed (serve os s bytes)
  unfolding serve
  serve-EndsClosed s bytes w = elim (Option-cases (after_prefix (codes "INIT ") (cstr bytes))) [
    | inr (rest, e) ↦ rw (e, serve) (init-EndsClosed s rest w)
    | inl e ↦ elim (Option-cases (after_prefix (codes "MSG ") (cstr bytes))) [
      | inr (rest, q) ↦ rw (e, q, serve) (message-Owned s rest w)
      | inl q ↦
          rw (e, q, serve)
            (if-keeps EndsClosed (str_eq (cstr bytes) (codes "EXIT")) (stopped (cleanup s))
              (going s) (cleanup-EndsClosed s w) w)
    ]
  ]

  next :
      (more : List (Option (List ℕ))) (r : Round)
      → ((t : Server) → Owned t → EndsClosed (serve_all os t more))
      → EndsClosed r
      → EndsClosed
          (elim r [ going t ↦ serve_all os t more | stopped t ↦ stopped t | undefined ↦ undefined ])
  next more (going t) rest w = rest t w
  next more (stopped t) rest w = w
  next more undefined rest w = tt

  rounds-EndsClosed :
      (messages : List (Option (List ℕ))) (s : Server)
      → Owned s
      → EndsClosed (serve_all os s messages)
  unfolding serve_all
  rounds-EndsClosed [] s w = w
  rounds-EndsClosed (none ∷ more) s w = cleanup-EndsClosed s w
  rounds-EndsClosed (some bytes ∷ more) s w =
      next more (serve os s bytes) (rounds-EndsClosed more) (serve-EndsClosed s bytes w)

  -- When the server ends, by an EXIT or a failure to receive, each queue that it opened has been
  -- closed, and no `mq_send` or `mq_close` was of a queue that was not open. Until then each open
  -- queue is its own or that of exactly one active client. Nothing is said of a run that reads a
  -- name that was never written.
  pub serve_all-EndsClosed :
      (q : ℕ) (messages : List (Option (List ℕ)))
      → EndsClosed (serve_all os (fresh_server q) messages)
  serve_all-EndsClosed q messages =
      rounds-EndsClosed messages (fresh_server q) (fresh_server-Owned q)
