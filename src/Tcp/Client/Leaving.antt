-- ===== src/Tcp/Client/Leaving.antt =====
-- A whole run of the client's `main` (lab10/src/client.c), and what it leaves open.
use cs_os.Prelude.{
  ℕ, zero, suc, ◌+◌, ◌≡◌, refl, ◌∙◌, subst, Bool, true, false, ◌||◌, not, Option, none, some, List,
  [], ◌∷◌, arith, ◌==◌, ==_iff, ◌≢◌, leb, if◌then◌else◌, Bool-cases, Option-cases, ◌⊎◌, sym, ap,
  inl, inr, if-keeps, eq_ℤ, minus_one, ℤ, pos, negsuc,
}
use native.Mathlib.Decide.{ℕ_discrete}
use cs_os.Chat.CString.{strlen, codes, str_eq, cstr}
use cs_os.Chat.Message.{
  Message, msg_alive, msg_list, msg_stop, max_message_size, max_client_name, validate_client_id,
}
use cs_os.Chat.Client.Input.{strtok, space}
use cs_os.Tcp.Server.{Log, Network, opened}
use cs_os.Tcp.Sound.Operations.{IsSilent, send_to-IsSilent}
use cs_os.Tcp.System.{is_open}
use cs_os.Tcp.Sound.{IsClean, opens}
use cs_os.Tcp.Client.{
  Client, Session, request, client_stop, client_cleanup, client_disconnect, client_close,
  client_join, close_pipe, client_send_alive_response, handle_received_message, send_to_server,
  client_init, fresh_client, client_connect, client_send_list_request, client_send_2all,
  client_send_2one, client_send_stop,
}
use cs_os.Tcp.Client.Input.{type_2all, send_typed, type_2one, run_command, handle_user_input}
use cs_os.Tcp.Client.Main.{
  Happening, typed, input_over, signalled, interrupted, received, Run, Outcome, waiting, ended,
  overflowed, finish, receive_round, client_run_interactive, client_start, client_session,
  client_main, Leaving, Received, with_socket, receive_all, receive_late,
}
use cs_os.Tcp.Client.Connection.{
  Holds, connection, bit-injective, client_stop-Holds, client_close-idle, client_close-Holds,
}
use cs_os.Tcp.Client.Closing.{
  send_to_server-Holds, handle_received_message-Holds, client_connect-Holds,
}

abbrev Kept : Log → Option Session → Type 0
Kept base none = Unit
Kept base (some s) = Holds base s

-- While `main` runs, and where it stands before it cleans up.
abbrev Running : Log → Outcome → Type 0
Running base (waiting s) = Holds base s
Running base (ended status s) = Holds base s
Running base overflowed = Unit

-- What is open is what was, and only open descriptors were closed.
abbrev pub IsTidy : Log → Log → Type 0
IsTidy base log = IsClean log × ((fd : ℕ) → is_open fd log ≡ is_open fd base)

-- The two descriptors differ and are not open.
abbrev pub IsNew : Option (ℕ × ℕ) → Log → Type 0
IsNew none log = Unit
IsNew (some (a, b)) log = (a ≢ b) × (is_open a log ≡ false) × (is_open b log ≡ false)

abbrev pub with_pipe : Option (ℕ × ℕ) → Log → Log
with_pipe none log = log
with_pipe (some (a, b)) log = opened b ∷ opened a ∷ log

-- A run that waits has open its connection and the two ends of its pipe, where it has them, and
-- nothing else; one that has ended has closed them.
abbrev pub LeavesTidy : Log → Outcome → Type 0
LeavesTidy base (waiting s) =
    (signal_pipe : Option (ℕ × ℕ)) × IsNew signal_pipe base × Holds (with_pipe signal_pipe base) s
LeavesTidy base (ended status s) = IsTidy base s.log
LeavesTidy base overflowed = Unit

client_close-IsTidy : (base : Log) (s : Session) → Holds base s → IsTidy base (client_close s).log
client_close-IsTidy base s h =
    let tidy = client_close-Holds base s h in
    (
      tidy.clean,
      λ fd.
          bit-injective (is_open fd (client_close s).log) (is_open fd base)
            (omega (arith, tidy.owned fd, client_close-idle s fd)),
    )

-- The ends of a new pipe are closed.
close_pipe-IsTidy :
    (base : Log) (signal_pipe : Option (ℕ × ℕ)) (s : Session)
    → IsNew signal_pipe base
    → IsTidy (with_pipe signal_pipe base) s.log
    → IsTidy base (close_pipe signal_pipe s).log
unfolding close_pipe is_open
close_pipe-IsTidy base none s new t = t
close_pipe-IsTidy base (some (a, b)) s (ne, fa, fb) (clean, same) = (
  (ground (arith, same b, ==_iff b b, ne), (ground (arith, same a, ==_iff a a), clean)),
  λ fd. ground (arith, same fd, fa, fb, ==_iff fd a, ==_iff fd b),
)

module _ (net : Network) where
  receive_round-IsSilent :
      (now : ℕ) (result : ℤ) (msg : Message) (s : Session)
      → IsSilent s.log (receive_round net now result msg s).session.log
  unfolding receive_round client_stop handle_received_message client_send_alive_response
      send_to_server
  receive_round-IsSilent now (negsuc n) msg s = record { same = λ fd. refl; clean = λ c. c }
  receive_round-IsSilent now (pos zero) msg s = record { same = λ fd. refl; clean = λ c. c }
  receive_round-IsSilent now (pos (suc n)) msg s =
      elim msg.type
        as (λ t.
          IsSilent s.log
            (elim t as (λ _. Session) [
              | msg_alive ↦ (client_send_alive_response net now s).1
              | _ ↦ s
            ]).log) [
              | msg_alive ↦ send_to-IsSilent net s.server_socket _ s.log
              | _ ↦ record { same = λ fd. refl; clean = λ c. c }
            ]

  receive_late-IsTidy :
      (base : Log) (held : Option ℕ) (late : List (Bool × Received)) (s : Session)
      → IsTidy base s.log
      → IsTidy base (receive_late net held late s).log
  unfolding receive_late
  receive_late-IsTidy base held [] s t = t
  receive_late-IsTidy base held ((read_before, (now, result, msg)) ∷ rest) s (clean, same) =
      let quiet =
        receive_round-IsSilent now result msg
          (with_socket (if read_before then held else s.server_socket) s) in
      receive_late-IsTidy base held rest _ (quiet.clean clean, λ fd. quiet.same fd ∙ same fd)

module _ (net : Network) (base : Log) where
  type_2all-Holds :
      (now : ℕ) (s : Session) (rest : List ℕ) → Holds base s → Holds base (type_2all net now s rest)
  unfolding type_2all client_send_2all
  type_2all-Holds now s rest o = elim (Option-cases (strtok none rest).0) [
    | inl e ↦ rw (e, type_2all) o
    | inr (m, e) ↦
        rw (e, type_2all)
          (if-keeps (Holds base) _ _ _ o (
            if-keeps (λ (r : ℤ × Session). Holds base r.1) _ _ _ o
              (send_to_server-Holds net base s _ o)))
  ]

  send_typed-Holds :
      (now : ℕ) (s : Session) (recipient message : Option (List ℕ))
      → Holds base s
      → Holds base (send_typed net now s recipient message)
  unfolding send_typed client_send_2one
  send_typed-Holds now s none message o = o
  send_typed-Holds now s (some r) none o = o
  send_typed-Holds now s (some r) (some m) o =
      if-keeps (Holds base) _ _ _ o (
        if-keeps (λ (r : ℤ × Session). Holds base r.1) _ _ _ o
          (send_to_server-Holds net base s _ o))

  run_command-Holds :
      (now : ℕ) (s : Session) (command rest : List ℕ)
      → Holds base s
      → Holds base (run_command net now s command rest)
  unfolding run_command type_2one client_send_list_request client_send_stop
  run_command-Holds now s command rest o =
      if-keeps (Holds base) (str_eq command (codes "help")) _ _ o (
        if-keeps (Holds base) (str_eq command (codes "list")) _ _
          (send_to_server-Holds net base s (request s.client msg_list now) o)
          (if-keeps (Holds base) (str_eq command (codes "2all")) _ _ (type_2all-Holds now s rest o)
            (if-keeps (Holds base) (str_eq command (codes "2one")) _ _
              (send_typed-Holds now s (strtok space rest).0 (strtok none (strtok space rest).1).0 o)
              (if-keeps (Holds base)
                (str_eq command (codes "quit")
                  || str_eq command (codes "exit")
                  || str_eq command (codes "stop"))
                _ _
                (client_stop-Holds base _
                  (send_to_server-Holds net base s (request s.client msg_stop now) o))
                o))))

  handle_user_input-Kept :
      (now : ℕ) (s : Session) (input : List ℕ)
      → Holds base s
      → Kept base (handle_user_input net now s input)
  unfolding handle_user_input
  handle_user_input-Kept now s input o =
      if-keeps (Kept base) (leb max_message_size (strlen input)) none
        (if strlen (cstr input) == 0 then some s else result) tt
        (if-keeps (Kept base) (strlen (cstr input) == 0) (some s) result o result-Kept)
    where
      result : Option Session
      result = elim (strtok space (cstr input)).0 [
        | none ↦ some s
        | some command ↦ some (run_command net now s command (strtok space (cstr input)).1)
      ]

      result-Kept : Kept base result
      result-Kept = elim (Option-cases (strtok space (cstr input)).0) [
        | inl e ↦ rw (e, Kept) o
        | inr (c, e) ↦ rw (e, Kept) (run_command-Holds now s c (strtok space (cstr input)).1 o)
      ]

  receive_round-Holds :
      (now : ℕ) (result : ℤ) (msg : Message) (s : Session)
      → Holds base s
      → Holds base (receive_round net now result msg s).session
  unfolding receive_round
  receive_round-Holds now (negsuc n) msg s o = client_stop-Holds base s o
  receive_round-Holds now (pos zero) msg s o = client_stop-Holds base s o
  receive_round-Holds now (pos (suc n)) msg s o = handle_received_message-Holds net base now s msg o

  receive_all-Holds :
      (received : List Received) (s : Session)
      → Holds base s
      → Holds base (receive_all net received s)
  unfolding receive_all
  receive_all-Holds [] s h = h
  receive_all-Holds ((now, result, msg) ∷ rest) s h =
      receive_all-Holds rest _ (receive_round-Holds now result msg s h)

  client_run_interactive-Running :
      (happenings : List Happening) (r : Run)
      → Holds base r.session
      → Running base (client_run_interactive net happenings r)
  unfolding client_run_interactive
  client_run_interactive-Running [] r o = o
  client_run_interactive-Running (typed now input ∷ rest) r o =
      elim (Option-cases (handle_user_input net now r.session input)) [
        | inl e ↦ rw (e, client_run_interactive) tt
        | inr (s, e) ↦
            let o' : Holds base s =
              subst (Kept base) e (handle_user_input-Kept now r.session input o) in
            rw (e, client_run_interactive)
              (if-keeps (Running base) s.is_running _ (ended 0 s)
                (client_run_interactive-Running rest (record r { session = s }) o') o')
      ]
  client_run_interactive-Running (input_over ∷ rest) r o = o
  client_run_interactive-Running (signalled ∷ rest) r o =
      client_run_interactive-Running rest (record r { session = client_stop r.session })
        (client_stop-Holds base r.session o)
  client_run_interactive-Running (interrupted ∷ rest) r o = client_stop-Holds base r.session o
  client_run_interactive-Running (received now result msg ∷ rest) r o =
      client_run_interactive-Running rest
        (if r.receiving then receive_round net now result msg r.session else r)
        (if-keeps (λ (x : Run). Holds base x.session) r.receiving _ r
          (receive_round-Holds now result msg r.session o) o)

  threads-Running :
      (thread : Option ℕ) (happenings : List Happening) (s : Session)
      → Holds base s
      → Running base (elim thread [
        | none ↦ ended 0 s
        | some t ↦
            let s' = record s { client = record s.client { receive_thread = t } } in
            let run =
              client_run_interactive net happenings (record { session = s'; receiving = true }) in
            if s.is_running then run else ended 0 s'
      ])
  threads-Running none happenings s o = o
  threads-Running (some t) happenings s o =
      let s' = record s { client = record s.client { receive_thread = t } } in
      let o' : Holds base s' = record { clean = o.clean; owned = o.owned } in
      if-keeps (Running base) s.is_running _ (ended 0 s')
        (client_run_interactive-Running happenings (record { session = s'; receiving = true }) o')
        o'

-- `pipe` gives descriptors that are not open.
abbrev pub IsFresh : (Log → Option (ℕ × ℕ)) → Type 0
IsFresh pipe = (log : Log) → IsNew (pipe log) log

opened-pipe-owned :
    (base log : Log) (a b fd : ℕ) (c : ℕ → ℕ)
    → is_open a log ≡ false
    → is_open b log ≡ false
    → ((fd : ℕ) → c fd + opens base fd ≡ opens log fd)
    → c fd + opens (opened b ∷ opened a ∷ base) fd ≡ opens (opened b ∷ opened a ∷ log) fd
unfolding is_open
opened-pipe-owned base log a b fd c fa fb o = elim (ℕ_discrete fd a) [
  | yes e ↦ subst (λ x. Owned x) (sym e) (ground (arith, o a, fa, ==_iff a a))
  | no ne ↦ elim (ℕ_discrete fd b) [
    | yes e ↦ subst (λ x. Owned x) (sym e) (ground (arith, o b, fb, ==_iff b b))
    | no ne' ↦ ground (arith, o fd, ne, ne')
  ]
]
  where
    Owned : ℕ → Type 0
    Owned x = c x + opens (opened b ∷ opened a ∷ base) x ≡ opens (opened b ∷ opened a ∷ log) x

opens-pipe :
    (base : Log) (s : Session) (a b : ℕ)
    → IsNew (some (a, b)) s.log
    → Holds base s
    → IsNew (some (a, b)) base
      × Holds (with_pipe (some (a, b)) base) (record s { log = with_pipe (some (a, b)) s.log })
unfolding is_open
opens-pipe base s a b (ne, fa, fb) h = (
  (ne, ground (arith, fa, h.owned a), ground (arith, fb, h.owned b)),
  record {
    clean = h.clean;
    owned = λ fd. opened-pipe-owned base s.log a b fd (connection s) fa fb h.owned;
  },
)

module _ (net : Network) (base : Log) (pipe : Log → Option (ℕ × ℕ)) (fresh : IsFresh pipe) where
  -- What `client_start` leaves: the pipe is new, and the run holds it.
  abbrev Started : Option (ℕ × ℕ) × Outcome → Type 0
  Started r = IsNew r.0 base × Running (with_pipe r.0 base) r.1

  client_start-Started :
      (thread : Option ℕ) (happenings : List Happening) (s : Session)
      → Holds base s
      → Started (client_start net pipe thread happenings s)
  unfolding client_start
  client_start-Started thread happenings s o =
      if-keeps Started (not s.is_connected) (none, ended 0 s) _ (tt, o)
        (elim (Option-cases (pipe s.log)) [
          | inl e ↦ rw e (tt, o)
          | inr ((a, b), e) ↦
              let (new, o') =
                opens-pipe base s a b (subst (λ p. IsNew p s.log) e (fresh s.log)) o in
              rw e (new, threads-Running net (with_pipe (some (a, b)) base) thread happenings _ o')
        ])

  finish-LeavesTidy :
      (leaving : Leaving) (r : Option (ℕ × ℕ) × Outcome)
      → Started r
      → LeavesTidy base (finish net leaving r)
  unfolding finish client_cleanup client_disconnect client_join
  finish-LeavesTidy leaving (signal_pipe, waiting s) (new, h) = (signal_pipe, new, h)
  finish-LeavesTidy leaving (signal_pipe, ended status s) (new, h) =
      close_pipe-IsTidy base signal_pipe _ new (
        receive_late-IsTidy net (with_pipe signal_pipe base) s.server_socket leaving.after_close _ (
          client_close-IsTidy (with_pipe signal_pipe base) _
            (receive_all-Holds net (with_pipe signal_pipe base) leaving.before_close s h)))
  finish-LeavesTidy leaving (signal_pipe, overflowed) h = tt

client_init-idle :
    (c : Client) (client_id server_ip : List ℕ) (server_port : ℕ) (locks_ok : Bool)
    → ((client_init c client_id server_ip server_port locks_ok).0 ≡ minus_one)
      ⊎ ((client_init c client_id server_ip server_port locks_ok).1.is_connected ≡ false)
unfolding client_init fresh_client
client_init-idle c client_id server_ip server_port locks_ok =
    elim (Bool-cases
      (leb max_client_name (strlen client_id) || not (validate_client_id (some client_id)))) [
        | inl bad ↦ rw (bad, client_init) (inl refl)
        | inr good ↦ rw (good, client_init) (inr refl)
      ]

none_open : (fd : ℕ) → is_open fd [] ≡ false
unfolding is_open
none_open fd = refl

module _ (net : Network) (inet_pton : List ℕ → Option ℕ) (pipe : Log → Option (ℕ × ℕ))
    (fresh : IsFresh pipe) where
  client_session-LeavesTidy :
      (socket : Option ℕ) (connected : Bool) (now : ℕ) (thread : Option ℕ)
      → (happenings : List Happening) (leaving : Leaving) (s : Session) → s.is_connected ≡ false
      → s.log ≡ []
      → LeavesTidy []
          (client_session net inet_pton socket connected now pipe thread happenings leaving s)
  unfolding client_session client_cleanup client_disconnect client_join close_pipe
  client_session-LeavesTidy socket connected now thread happenings leaving s idle e =
      if-keeps (LeavesTidy [])
        (eq_ℤ (client_connect net inet_pton socket connected now s).0 minus_one) _ _
        (client_close-IsTidy [] _ holds)
        (finish-LeavesTidy net [] pipe fresh leaving _
          (client_start-Started net [] pipe fresh thread happenings _ holds))
    where
      holds : Holds [] (client_connect net inet_pton socket connected now s).1
      holds =
          subst (λ log. Holds log (client_connect net inet_pton socket connected now s).1) e
            (client_connect-Holds net inet_pton socket connected now s idle
              (subst IsClean (sym e) tt) (λ fd q. ap (is_open fd) e ∙ none_open fd))

  -- Whatever is typed, arrives, interrupts or fails, where no line is too long for the command's
  -- block and `pipe` gives descriptors that are not open: a client that has ended has closed each
  -- descriptor that it opened, its connection and the two of its pipe, once, whatever its receiving
  -- thread does beside the close; one that waits has none open but these. The join of the receiving
  -- thread is taken to return.
  pub client_main-LeavesTidy :
      (memory : Client) (client_id server_ip : List ℕ) (server_port : ℕ) (locks_ok : Bool)
      → (socket : Option ℕ) (connected : Bool) (now : ℕ) (thread : Option ℕ)
      → (happenings : List Happening) (leaving : Leaving)
      → LeavesTidy [] (
          client_main net inet_pton memory client_id server_ip server_port locks_ok socket connected
            now pipe thread happenings leaving)
  unfolding client_main
  client_main-LeavesTidy memory client_id server_ip server_port locks_ok socket connected now thread
        happenings leaving =
      elim (client_init-idle memory client_id server_ip server_port locks_ok) [
        | inl fails ↦ rw (fails, client_main) (tt, λ fd. refl)
        | inr idle ↦
            if-keeps (LeavesTidy []) (eq_ℤ made.0 minus_one) _ _ (tt, λ fd. refl)
              (client_session-LeavesTidy socket connected now thread happenings leaving
                (record { client = made.1; log = [] }) idle refl)
      ]
    where
      made : ℤ × Client
      made = client_init memory client_id server_ip server_port locks_ok
