-- ===== src/Chat/Client/Typed.antt =====
-- From a typed line to the call it makes: the command "2one" of `handle_user_input`
-- (lab11/src/client.c).
use cs_os.Prelude.{
  ℕ, ◌+◌, ◌<◌, ◌≡◌, ◌≢◌, refl, ◌∙◌, ap, false, ◌==◌, leb, Option, none, some, List, [], ◌∷◌, ◌++◌,
  arith, length, length-append,
}
use cs_os.Chat.CString.{codes, cstr, strlen, str_eq}
use cs_os.Chat.Message.{max_message_size}
use cs_os.Chat.Message.ClientId.{All}
use cs_os.Chat.Protocol.{Sendto}
use cs_os.Chat.Client.{Session, client_send_2one}
use cs_os.Chat.Client.Input.{
  skip, token, strtok, space, trim_whitespace, send_typed, type_2one, run_command,
  handle_user_input,
}

-- A text in memory has no 0 in it; a word has no space, too.
abbrev pub IsText : List ℕ → Type 0
IsText = All (λ c. c ≢ 0)

abbrev pub IsWord : List ℕ → Type 0
IsWord = All (λ c. (c ≢ 0) × (c ≢ 32))

cstr-append : (xs ys : List ℕ) → IsText xs → cstr (xs ++ ys) ≡ xs ++ cstr ys
unfolding cstr
cstr-append [] ys t = refl
cstr-append (x ∷ xs) ys t = ground (arith, cstr-append xs ys t.1)

pub cstr-IsText : (xs : List ℕ) → IsText xs → cstr xs ≡ xs
unfolding cstr
cstr-IsText [] t = refl
cstr-IsText (x ∷ xs) t = ground (arith, cstr-IsText xs t.1)

pub IsText-IsWord : (xs : List ℕ) → IsWord xs → IsText xs
IsText-IsWord [] w = tt
IsText-IsWord (x ∷ xs) w = (w.0.0, IsText-IsWord xs w.1)

token-word : (r m : List ℕ) → IsWord r → token space (r ++ 32 ∷ m) ≡ (r, m)
unfolding token
token-word [] m w = refl
token-word (c ∷ r) m w = ground (arith, token-word r m w.1)

token-whole : (m : List ℕ) → token none m ≡ (m, [])
unfolding token
token-whole [] = refl
token-whole (c ∷ m) = ground (arith, token-whole m)

strtok-word : (r m : List ℕ) → r ≢ [] → IsWord r → strtok space (r ++ 32 ∷ m) ≡ (some r, m)
unfolding strtok skip
strtok-word [] m n w = absurd (n refl)
strtok-word (c ∷ r) m n w = ground (arith, token-word (c ∷ r) m w)

strtok-whole : (m : List ℕ) → m ≢ [] → strtok none m ≡ (some m, [])
unfolding strtok skip
strtok-whole [] n = absurd (n refl)
strtok-whole (c ∷ m) n = ground (arith, token-whole (c ∷ m))

pub strlen-IsText : (m : List ℕ) → m ≢ [] → IsText m → (strlen m == 0) ≡ false
unfolding strlen
strlen-IsText [] n t = absurd (n refl)
strlen-IsText (c ∷ m) n t = rw (cstr-IsText (c ∷ m) t) (ground arith)

module _ (sendto : Sendto) where
  type_2one-word :
      (now : ℕ) (s : Session) (r m : List ℕ)
      → r ≢ []
      → IsWord r
      → m ≢ []
      → IsText m
      → type_2one sendto now s (r ++ 32 ∷ m) ≡ (client_send_2one sendto now s r m).1
  unfolding type_2one send_typed
  type_2one-word now s r m rn rw_ mn mt =
      rw
        (
          strtok-word r m rn rw_,
          type_2one,
          strtok-whole m mn,
          send_typed,
          strlen-IsText r rn (IsText-IsWord r rw_),
          strlen-IsText m mn mt,
        )
        refl

  run_command-2one :
      (now : ℕ) (s : Session) (rest : List ℕ)
      → run_command sendto now s (codes "2one") rest ≡ type_2one sendto now s rest
  unfolding run_command str_eq
  run_command-2one now s rest = refl

  -- The line "2one", a name without spaces and a text makes the client send exactly that text to
  -- that name, spaces in the text and in front of it included, where the line is shorter than the
  -- block it is copied to.
  pub handle_user_input-2one :
      (now : ℕ) (s : Session) (input r m : List ℕ)
      → cstr input ≡ codes "2one " ++ (r ++ 32 ∷ m)
      → length r + length m + 6 < max_message_size
      → r ≢ []
      → IsWord r
      → m ≢ []
      → IsText m
      → handle_user_input sendto now s input ≡ some (client_send_2one sendto now s r m).1
  unfolding handle_user_input
  handle_user_input-2one now s input r m e short rn rword mn mt =
      rw (handle_user_input, fits, some_text, parsed)
        (ap some (
          ap (λ (p : Option (List ℕ) × List ℕ). run_command sendto now s (codes "2one") p.1) parsed
          ∙ run_command-2one now s (r ++ 32 ∷ m)
          ∙ type_2one-word now s r m rn rword mn mt))
    where
      fits : leb max_message_size (strlen input) ≡ false
      fits = unfold strlen in rw e (ground (arith, length-append r (32 ∷ m)))

      some_text : (strlen (trim_whitespace (cstr input)) == 0) ≡ false
      some_text = unfold strlen cstr in rw e (ground arith)

      word : IsWord (codes "2one")
      word = ground arith

      parsed : strtok space (trim_whitespace (cstr input)) ≡ (some (codes "2one"), r ++ 32 ∷ m)
      parsed = rw e (strtok-word (codes "2one") (r ++ 32 ∷ m) (λ h. cc) word)
