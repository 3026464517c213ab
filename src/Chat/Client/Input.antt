-- ===== src/Chat/Client/Input.antt =====
-- `handle_user_input` of lab11/src/client.c: what a line at the terminal makes the client do.
use cs_os.Prelude.{
  ℕ, Bool, false, ◌||◌, Option, none, some, List, [], ◌∷◌, ◌==◌, leb, if◌then◌else◌,
}
use cs_os.Chat.CString.{codes, str_eq, strlen, cstr}
use cs_os.Chat.Message.{max_message_size}
use cs_os.Chat.Protocol.{Sendto}
use cs_os.Chat.Client.{
  Session, client_stop, client_send_list_request, client_send_2all, client_send_2one,
  client_send_stop,
}

-- The delimiters that a call of `strtok` gets: one character, or the empty string.
is_delimiter : Option ℕ → ℕ → Bool
is_delimiter none c = false
is_delimiter (some d) c = c == d

-- The text after the delimiters in front.
unfoldable pub skip : Option ℕ → List ℕ → List ℕ
unfolding is_delimiter
skip d [] = []
skip d (c ∷ cs) = let rest = skip d cs in if is_delimiter d c then rest else c ∷ cs

-- The text up to a delimiter, and after it.
unfoldable pub token : Option ℕ → List ℕ → List ℕ × List ℕ
unfolding is_delimiter
token d [] = ([], [])
token d (c ∷ cs) =
    let (t, rest) = token d cs in if is_delimiter d c then ([], cs) else (c ∷ t, rest)

-- The token or NULL, and the text at which a further call with NULL goes on.
unfoldable pub strtok : Option ℕ → List ℕ → Option (List ℕ) × List ℕ
unfolding skip token
strtok d text = elim (skip d text) [
  | [] ↦ (none, [])
  | c ∷ cs ↦ let (t, rest) = token d (c ∷ cs) in (some t, rest)
]

-- `" "`
abbrev pub space : Option ℕ
space = some 32

-- The body of `trim_whitespace` is commented out.
abbrev pub trim_whitespace : List ℕ → List ℕ
trim_whitespace str = str

module _ (sendto : Sendto) where
  -- After the command "2all".
  unfoldable pub type_2all : ℕ → Session → List ℕ → Session
  unfolding strtok client_send_2all strlen
  type_2all now s rest = elim (strtok none rest).0 [
    | none ↦ s
    | some message ↦
        if strlen (trim_whitespace message) == 0
        then s
        else (client_send_2all sendto now s (trim_whitespace message)).1
  ]

  unfoldable pub send_typed : ℕ → Session → Option (List ℕ) → Option (List ℕ) → Session
  unfolding client_send_2one strlen
  send_typed now s none message = s
  send_typed now s (some recipient) none = s
  send_typed now s (some recipient) (some message) =
      if (strlen (trim_whitespace recipient) == 0) || (strlen (trim_whitespace message) == 0)
      then s
      else (client_send_2one sendto now s (trim_whitespace recipient) (trim_whitespace message)).1

  -- After the command "2one".
  unfoldable pub type_2one : ℕ → Session → List ℕ → Session
  unfolding strtok send_typed
  type_2one now s rest =
      let (recipient, rest') = strtok space rest in send_typed now s recipient (strtok none rest').0

  unfoldable pub run_command : ℕ → Session → List ℕ → List ℕ → Session
  unfolding type_2all type_2one client_send_list_request client_send_stop client_stop
  run_command now s command rest =
      if str_eq command (codes "help")
      then s
      else if str_eq command (codes "list")
      then (client_send_list_request sendto now s).1
      else if str_eq command (codes "2all")
      then type_2all now s rest
      else if str_eq command (codes "2one")
      then type_2one now s rest
      else if str_eq command (codes "quit")
          || str_eq command (codes "exit")
          || str_eq command (codes "stop")
      then client_stop (client_send_stop sendto now s).1
      else s

  -- `none`: the text and its 0 are longer than the block that `strcpy` writes to, and the program's
  -- behaviour is undefined.
  unfoldable pub handle_user_input : ℕ → Session → List ℕ → Option Session
  unfolding strtok run_command strlen cstr
  handle_user_input now s input =
      if leb max_message_size (strlen input)
      then none
      else if strlen (trim_whitespace (cstr input)) == 0
      then some s
      else let (command, rest) = strtok space (trim_whitespace (cstr input)) in
        elim command [ none ↦ some s | some command ↦ some (run_command now s command rest) ]
