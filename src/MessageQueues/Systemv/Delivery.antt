-- ===== src/MessageQueues/Systemv/Delivery.antt =====
-- From a line at one client of lab6/src to the queues of the others.
use cs_os.Prelude.{
  ℕ, zero, suc, ◌+◌, ◌≤◌, ◌<◌, ◌≡◌, refl, ap, ◌∙◌, subst, true, false, Option, none, some, List, [],
  ◌∷◌, ◌++◌, arith, ltb, leb, if◌then◌else◌, length, length-append, take, drop, pos, lt→ltb,
}
use native.Mathlib.Decide.{dec_lt}
use cs_os.Chat.CString.{codes, cstr, str_eq}
use cs_os.MessageQueues.{msg_size}
use cs_os.MessageQueues.Laws.{IsLine, IsText, cstr-IsLine, print_int-digit, scan_message-text}
use cs_os.MessageQueues.Systemv.{
  Client, Sent, Server, going, overflowed, send_others, broadcast_of, message, post, dispatch,
  serve, send_line,
}

-- The active ones, in order.
abbrev pub active_only : List Client → List Client
active_only [] = []
active_only (c ∷ cs) = if c.active then c ∷ active_only cs else active_only cs

-- One copy of a text to each of these clients, in order.
abbrev pub copies : List ℕ → List Client → List Sent → List Sent
copies text [] log = log
copies text (c ∷ cs) log =
    copies text cs (record { queue = c.qid; msg_type = 1; message = text } ∷ log)

-- Behind the sender's place everybody active gets a copy.
send_others-behind :
    (i k : ℕ) (b : List ℕ) (cs : List Client) (log : List Sent)
    → k < i
    → send_others i (pos k) b cs log ≡ copies b (active_only cs) log
unfolding send_others
send_others-behind i k b [] log h = refl
send_others-behind i k b (c ∷ cs) log h = ground (
  arith,
  send_others-behind (i + 1) k b cs log,
  send_others-behind (i + 1) k b cs (record { queue = c.qid; msg_type = 1; message = b } ∷ log),
)

-- Everybody active but the client at the sender's place gets one copy.
send_others_from :
    (i k n : ℕ) (b : List ℕ) (cs : List Client) (log : List Sent)
    → k ≡ i + n
    → send_others i (pos k) b cs log ≡ copies b (active_only (take n cs ++ drop (suc n) cs)) log
unfolding send_others
send_others_from i k zero b [] log e = refl
send_others_from i k (suc n) b [] log e = refl
send_others_from i k zero b (c ∷ cs) log e = ground (arith, send_others-behind (i + 1) k b cs log)
send_others_from i k (suc n) b (c ∷ cs) log e = ground (
  arith,
  send_others_from (i + 1) k n b cs log,
  send_others_from (i + 1) k n b cs (record { queue = c.qid; msg_type = 1; message = b } ∷ log),
)

broadcast_of-digit :
    (id : ℕ) (t : List ℕ)
    → id < 10
    → broadcast_of (pos id) t ≡ codes "From " ++ (48 + id) ∷ codes ": " ++ t
unfolding broadcast_of
broadcast_of-digit id t h = rw (print_int-digit id h, broadcast_of) refl

IsText-IsLine : (t : List ℕ) → IsText t → IsLine t
IsText-IsLine [] x = absurd x
IsText-IsLine (c ∷ cs) x = x.1

said-IsLine :
    (id : ℕ) (t : List ℕ) → id < 10 → IsText t → IsLine (codes "MSG " ++ (48 + id) ∷ 32 ∷ t)
said-IsLine id t h x = (
  λ e. omega (arith, e),
  λ e. omega (arith, e),
  (
    λ e. omega (arith, e),
    λ e. omega (arith, e),
    (
      λ e. omega (arith, e),
      λ e. omega (arith, e),
      (
        λ e. omega (arith, e),
        λ e. omega (arith, e),
        (
          λ e. omega (arith, e),
          λ e. omega (arith, e),
          (λ e. omega (arith, e), λ e. omega (arith, e), IsText-IsLine t x),
        ),
      ),
    ),
  ),
)

-- What a client sends for a text that is not "exit" and leaves room.
pub send_line-text :
    (id : ℕ) (t : List ℕ)
    → id < 10
    → length t ≤ 1017
    → str_eq t (codes "exit") ≡ false
    → send_line (pos id) t ≡ some (codes "MSG " ++ ((48 + id) ∷ 32 ∷ t ++ 0 ∷ []))
unfolding send_line
send_line-text id t h n e =
    let fits : ltb (length (codes "MSG " ++ ((48 + id) ∷ []) ++ codes " " ++ t)) msg_size ≡ true =
      lt→ltb _ _ (omega arith) in
    rw (e, print_int-digit id h, fits, send_line) refl

send_line-long :
    (id : ℕ) (t : List ℕ)
    → id < 10
    → 1018 ≤ length t
    → str_eq t (codes "exit") ≡ false
    → send_line (pos id) t ≡ none
unfolding send_line
send_line-long id t h n e =
    let full : ltb (length (codes "MSG " ++ ((48 + id) ∷ []) ++ codes " " ++ t)) msg_size ≡ false =
      ground arith in
    rw (e, print_int-digit id h, full, send_line) refl

-- The server reads the number and the text, and writes both again.
answer :
    (s : Server) (id : ℕ) (t : List ℕ)
    → id < 10
    → IsText t
    → message s ((48 + id) ∷ 32 ∷ t)
      ≡ post s (pos id) (codes "From " ++ (48 + id) ∷ codes ": " ++ t)
unfolding message
answer s id t h x =
    rw (scan_message-text id t h x, message) (ap (post s (pos id)) (broadcast_of-digit id t h))

module _ (queue_of : List ℕ → Option ℕ) (s : Server) where
  pub serve-text :
      (id : ℕ) (t : List ℕ)
      → id < 10
      → IsText t
      → length t ≤ 1016
      → serve queue_of s (codes "MSG " ++ ((48 + id) ∷ 32 ∷ t ++ 0 ∷ []))
        ≡ message s ((48 + id) ∷ 32 ∷ t)
  unfolding serve
  serve-text id t h x n =
      let fits : leb msg_size (length (codes "MSG " ++ ((48 + id) ∷ 32 ∷ t ++ 0 ∷ []))) ≡ false =
        ground (arith, length-append {0} t (0 ∷ [])) in
      let whole : cstr (codes "MSG " ++ ((48 + id) ∷ 32 ∷ t ++ 0 ∷ []))
          ≡ codes "MSG " ++ (48 + id) ∷ 32 ∷ t =
        cstr-IsLine (codes "MSG " ++ (48 + id) ∷ 32 ∷ t) (said-IsLine id t h x) in
      rw (fits, serve) (ap (dispatch queue_of s) whole ∙ unfold dispatch in refl)

  -- A text of at most 1015 characters reaches every other registered client once, behind the
  -- sender's number, and nobody else. The text is a line that does not begin with white space and
  -- is not "exit"; the number is below 10.
  pub send_line-serve :
      (id : ℕ) (t : List ℕ)
      → id < 10
      → IsText t
      → str_eq t (codes "exit") ≡ false
      → length t ≤ 1015
      → (bytes : List ℕ) × (send_line (pos id) t ≡ some bytes)
        × (serve queue_of s bytes
            ≡ going (record s {
              log =
                  copies
                    (codes "From " ++ (48 + id) ∷ codes ": " ++ t)
                    (active_only (take id s.clients ++ drop (suc id) s.clients))
                    s.log;
            }))
  unfolding post
  send_line-serve id t h x e n = (
    codes "MSG " ++ ((48 + id) ∷ 32 ∷ t ++ 0 ∷ []),
    send_line-text id t h (omega arith) e,
    serve-text id t h x (omega arith) ∙ answered,
  )
    where
      answered :
          message s ((48 + id) ∷ 32 ∷ t)
          ≡ going (record s {
            log =
                copies
                  (codes "From " ++ (48 + id) ∷ codes ": " ++ t)
                  (active_only (take id s.clients ++ drop (suc id) s.clients))
                  s.log;
          })
      answered =
          let fits : ltb (length (codes "From " ++ (48 + id) ∷ codes ": " ++ t)) msg_size ≡ true =
            lt→ltb _ _ (omega arith) in
          answer s id t h x
          ∙ rw (fits, post)
              (ap (λ log. going (record s { log = log }))
                (send_others_from 0 id id _ s.clients s.log (omega arith)))

  -- A text of 1016 characters or more that a client can send makes the server write outside of an
  -- array. The text is a line that does not begin with white space and is not "exit"; the number is
  -- below 10.
  pub send_line-overflows :
      (id : ℕ) (t : List ℕ)
      → id < 10
      → IsText t
      → str_eq t (codes "exit") ≡ false
      → (bytes : List ℕ) → 1016 ≤ length t
      → send_line (pos id) t ≡ some bytes
      → serve queue_of s bytes ≡ overflowed
  send_line-overflows id t h x e bytes n sent = elim (dec_lt 1017 (length t)) [
    | yes long ↦ absurd (cc (send_line-long id t h (omega (arith, long)) e, sent))
    | no short ↦
        let same : codes "MSG " ++ ((48 + id) ∷ 32 ∷ t ++ 0 ∷ []) ≡ bytes =
          cc (send_line-text id t h (omega (arith, short)) e, sent) in
        subst (λ b. serve queue_of s b ≡ overflowed) same
          (elim (dec_lt 1016 (length t)) [
            | yes fills ↦
                let full : leb msg_size (length (codes "MSG " ++ ((48 + id) ∷ 32 ∷ t ++ 0 ∷ [])))
                    ≡ true =
                  ground (arith, length-append {0} t (0 ∷ []), fills) in
                unfold serve in rw (full, serve) refl
            | no fits ↦
                let full : ltb (length (codes "From " ++ (48 + id) ∷ codes ": " ++ t)) msg_size
                    ≡ false =
                  ground (arith, n) in
                serve-text id t h x (omega (arith, fits))
                ∙ answer s id t h x
                ∙ unfold post in rw (full, post) refl
          ])
  ]
