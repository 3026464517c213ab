-- ===== src/Tcp/Hang.antt =====
-- `server_cleanup` of lab10/src/server.c waits, with `clients_mutex` in its hands, for threads that
-- need the mutex to end.
use cs_os.Prelude.{
  ℕ, zero, suc, ◌+◌, ◌≤◌, ◌<◌, ◌≡◌, ◌≢◌, refl, sym, subst, if-keeps, ◌&&◌, ap, ◌∙◌, ◌⊎◌, inl, inr,
  true, Option, some, List, [], ◌∷◌, arith, get_elem?, get_or, modify, get_elem?-modify_self,
  get_elem?-modify_ne,
}
use cs_os.Chat.Message.{
  Message, MessageType, msg_list, msg_2all, msg_2one, msg_stop, msg_alive, msg_alive_response,
  msg_error, msg_client_list, msg_broadcast, msg_private, out_of_range,
}
use cs_os.Chat.Server.{ServerClient, max_clients, client_at, no_client}
use cs_os.Tcp.Server.{World, Network}
use cs_os.Tcp.Server.Handlers.{heard, heard_at, answer, handle_stop_request}
use cs_os.Tcp.System.{
  ThreadPhase, receiving, answering, cleaning, ended, ClientThread, MainPhase, accepting,
  identifying, welcoming, joining, finished, System, mutex_free, takes_mutex, after_answer, move,
  Step, Reach, accept, give_up, identify, greet, check, hear, break_off, reply, clean, monitor,
  signal, clean_up, join, finish, start, then_step, IsJoinable, reset_thread,
}

-- The thread `n` exists and is not at its end.
abbrev pub IsAlive : List ClientThread → ℕ → Type 0
IsAlive ts n = (t : ClientThread) × (get_elem? ts n ≡ some t) × (t.phase ≢ ended)

-- The main thread has not passed the slot `i` in `server_cleanup`, whose thread `n` is not at its
-- end.
pub record IsWaiting (i n : ℕ) (s : System) : Type 0 where
  pub at : (k : ℕ) × (s.main ≡ joining k) × (k ≤ i)
  pub inside : i < max_clients
  pub thread : (client_at s.world.server i).thread_id ≡ suc n
  pub alive : IsAlive s.threads n

eq-cases : (m n : ℕ) → (m ≡ n) ⊎ (m ≢ n)
eq-cases m n = ground arith

move-IsAlive :
    (ts : List ClientThread) (m n : ℕ) (t : ClientThread) (phase : ThreadPhase)
    → get_elem? ts m ≡ some t
    → phase ≢ ended
    → IsAlive ts n
    → IsAlive (modify ts m (move phase)) n
unfolding move
move-IsAlive ts m n t phase e p (u, q, a) = elim (eq-cases m n) [
  | inl same ↦ (
    record t { phase = phase },
    ap (get_elem? (modify ts m (move phase))) (sym same)
        ∙ get_elem?-modify_self ts m (move phase) t e,
    p,
  )
  | inr other ↦ (u, get_elem?-modify_ne ts m n (move phase) other ∙ q, a)
]

pub thread_id-modify :
    (f : ServerClient → ServerClient) (cs : List ServerClient) (k i : ℕ)
    → ((c : ServerClient) → (f c).thread_id ≡ c.thread_id)
    → (get_or (modify cs k f) i no_client).thread_id ≡ (get_or cs i no_client).thread_id
thread_id-modify f [] k i h = refl
thread_id-modify f (c ∷ cs) zero zero h = h c
thread_id-modify f (c ∷ cs) zero (suc i) h = refl
thread_id-modify f (c ∷ cs) (suc k) zero h = refl
thread_id-modify f (c ∷ cs) (suc k) (suc i) h = thread_id-modify f cs k i h

thread_id-modify_ne :
    (f : ServerClient → ServerClient) (cs : List ServerClient) (k i : ℕ)
    → k < i
    → (get_or (modify cs k f) i no_client).thread_id ≡ (get_or cs i no_client).thread_id
thread_id-modify_ne f [] k i h = refl
thread_id-modify_ne f (c ∷ cs) zero zero h = absurd (omega arith)
thread_id-modify_ne f (c ∷ cs) zero (suc i) h = refl
thread_id-modify_ne f (c ∷ cs) (suc k) zero h = refl
thread_id-modify_ne f (c ∷ cs) (suc k) (suc i) h = thread_id-modify_ne f cs k i (omega arith)

-- The answers that need no mutex change no slot.
answer-server :
    (net : Network) (now : ℕ) (type : MessageType) (w : World) (m : Message) (socket : Option ℕ)
    → takes_mutex type ≢ true
    → (answer net now type w m socket).server ≡ w.server
unfolding answer handle_stop_request takes_mutex
answer-server net now msg_list w m socket h = absurd (h refl)
answer-server net now msg_2all w m socket h = absurd (h refl)
answer-server net now msg_2one w m socket h = absurd (h refl)
answer-server net now msg_stop w m socket h = refl
answer-server net now msg_alive_response w m socket h = absurd (h refl)
answer-server net now msg_alive w m socket h = refl
answer-server net now msg_error w m socket h = refl
answer-server net now msg_client_list w m socket h = refl
answer-server net now msg_broadcast w m socket h = refl
answer-server net now msg_private w m socket h = refl
answer-server net now (out_of_range n) w m socket h = refl

after_answer-ended : (type : MessageType) → after_answer type ≢ ended
unfolding after_answer
after_answer-ended msg_stop e = cc
after_answer-ended msg_list e = cc
after_answer-ended msg_2all e = cc
after_answer-ended msg_2one e = cc
after_answer-ended msg_alive e = cc
after_answer-ended msg_alive_response e = cc
after_answer-ended msg_error e = cc
after_answer-ended msg_client_list e = cc
after_answer-ended msg_broadcast e = cc
after_answer-ended msg_private e = cc
after_answer-ended (out_of_range n) e = cc

-- The main thread has the mutex.
busy : (i n : ℕ) (s : System) → IsWaiting i n s → mutex_free s.main ≢ true
unfolding mutex_free
busy i n s w e = let (k, q, l) = w.at in cc (q, e)

-- The main thread does nothing else.
elsewhere :
    (i n : ℕ) (s : System) (phase : MainPhase)
    → IsWaiting i n s
    → ((k : ℕ) → phase ≢ joining k)
    → s.main ≢ phase
elsewhere i n s phase w other e = let (k, q, l) = w.at in other k (sym e ∙ q)

-- A thread at its end is not alive.
joined-not_IsAlive :
    (s : System) (i n : ℕ)
    → (client_at s.world.server i).thread_id ≡ suc n
    → IsAlive s.threads n
    → IsJoinable (client_at s.world.server i).thread_id s.threads
    → ⊥
joined-not_IsAlive s i n e (u, q, a) j =
    let (t, r, b) = subst (λ id. IsJoinable id s.threads) e j in
    let same : u ≡ t = cc (q, r) in a (ap (λ (x : ClientThread). x.phase) same ∙ b)

Step-IsWaiting :
    (net : Network) (i n : ℕ) (s s' : System) → Step net s s' → IsWaiting i n s → IsWaiting i n s'
Step-IsWaiting net i n _ _ (accept s fd addr e on new) w =
    absurd (elsewhere i n s accepting w (λ k q. cc) e)
Step-IsWaiting net i n _ _ (give_up s fd addr e) w =
    absurd (elsewhere i n s (identifying fd addr) w (λ k q. cc) e)
Step-IsWaiting net i n _ _ (identify s fd addr now m e v) w =
    absurd (elsewhere i n s (identifying fd addr) w (λ k q. cc) e)
Step-IsWaiting net i n _ _ (greet s fd now e) w =
    absurd (elsewhere i n s (welcoming fd) w (λ k q. cc) e)
Step-IsWaiting net i n _ _ (check s m t e c) w = record {
  at = w.at;
  inside = w.inside;
  thread = w.thread;
  alive =
      move-IsAlive s.threads m n t _ e
        (if-keeps (λ phase. phase ≢ ended)
          (s.world.is_running && (client_at s.world.server t.slot).is_active) receiving cleaning
          (λ q. cc) (λ q. cc))
        w.alive;
}
Step-IsWaiting net i n _ _ (hear s m t now msg e c v) w = record {
  at = w.at;
  inside = w.inside;
  thread =
      unfold heard_at in
      thread_id-modify (heard now) s.world.clients t.slot i (λ c. unfold heard in refl) ∙ w.thread;
  alive = move-IsAlive s.threads m n t (answering msg) e (λ q. cc) w.alive;
}
Step-IsWaiting net i n _ _ (break_off s m t e c) w = record {
  at = w.at;
  inside = w.inside;
  thread = w.thread;
  alive = move-IsAlive s.threads m n t cleaning e (λ q. cc) w.alive;
}
Step-IsWaiting net i n _ _ (reply s m t now msg e c f) w = record {
  at = w.at;
  inside = w.inside;
  thread =
      ap (λ v. (client_at v i).thread_id)
        (answer-server net now msg.type s.world msg _ (λ q. busy i n s w (f q)))
      ∙ w.thread;
  alive = move-IsAlive s.threads m n t _ e (after_answer-ended msg.type) w.alive;
}
Step-IsWaiting net i n _ _ (clean s m t e c f) w = absurd (busy i n s w f)
Step-IsWaiting net i n _ _ (monitor s now f) w = absurd (busy i n s w f)
Step-IsWaiting net i n _ _ (signal s now f) w = absurd (busy i n s w f)
Step-IsWaiting net i n _ _ (clean_up s e off) w = absurd (elsewhere i n s accepting w (λ k q. cc) e)
Step-IsWaiting net i n _ _ (join s k e l j) w =
    let (k', e', l') = w.at in
    let same : k ≡ k' = cc in
    elim (eq-cases k i) [
      | inl q ↦ absurd (
          joined-not_IsAlive s i n w.thread w.alive
            (subst (λ x. IsJoinable (client_at s.world.server x).thread_id s.threads) q j))
      | inr q ↦ record {
        at = (k + 1, refl, omega (arith, same, l', q));
        inside = w.inside;
        thread =
            thread_id-modify_ne reset_thread s.world.clients k i (omega (arith, same, l', q))
            ∙ w.thread;
        alive = w.alive;
      }
    ]
Step-IsWaiting net i n _ _ (finish s e) w =
    let (k, q, l) = w.at in
    let same : k ≡ max_clients = cc in absurd (omega (arith, same, l, w.inside))

-- Once `server_cleanup` waits for the threads, at a slot before or at one whose thread is not at
-- its end, it never ends, whatever the threads do and whatever arrives: the thread needs the mutex
-- to come to its end, and `server_cleanup` has it.
pub Reach-IsWaiting :
    (net : Network) (i n : ℕ) (s s' : System)
    → IsWaiting i n s
    → Reach net s s'
    → (s'.main ≢ finished) × IsAlive s'.threads n
Reach-IsWaiting net i n s s' w r =
    let v = waiting s' r in (elsewhere i n s' finished v (λ k q. cc), v.alive)
  where
    waiting : (s' : System) → Reach net s s' → IsWaiting i n s'
    waiting _ start = w
    waiting _ (then_step t u r st) = Step-IsWaiting net i n t u st (waiting t r)
