-- ===== src/Tcp/Client/Input.antt =====
-- `handle_user_input` of lab10/src/client.c: what a line at the terminal makes the client do.
-- `strtok` and `trim_whitespace` are those of lab11.
use cs_os.Prelude.{ℕ, ◌||◌, Option, none, some, List, ◌==◌, leb, if◌then◌else◌}
use cs_os.Chat.CString.{codes, str_eq, strlen, cstr}
use cs_os.Chat.Message.{max_message_size}
use cs_os.Chat.Client.Input.{strtok, space, trim_whitespace}
use cs_os.Tcp.Server.{Network}
use cs_os.Tcp.Client.{
  Session, client_stop, client_send_list_request, client_send_2all, client_send_2one,
  client_send_stop,
}

module _ (net : Network) where
  -- After the command "2all".
  unfoldable pub type_2all : ℕ → Session → List ℕ → Session
  unfolding strtok client_send_2all strlen
  type_2all now s rest = elim (strtok none rest).0 [
    | none ↦ s
    | some message ↦
        if strlen (trim_whitespace message) == 0
        then s
        else (client_send_2all net now s (trim_whitespace message)).1
  ]

  unfoldable pub send_typed : ℕ → Session → Option (List ℕ) → Option (List ℕ) → Session
  unfolding client_send_2one strlen
  send_typed now s none message = s
  send_typed now s (some recipient) none = s
  send_typed now s (some recipient) (some message) =
      if (strlen (trim_whitespace recipient) == 0) || (strlen (trim_whitespace message) == 0)
      then s
      else (client_send_2one net now s (trim_whitespace recipient) (trim_whitespace message)).1

  -- After the command "2one".
  unfoldable pub type_2one : ℕ → Session → List ℕ → Session
  unfolding strtok send_typed
  type_2one now s rest =
      let (recipient, rest') = strtok space rest in send_typed now s recipient (strtok none rest').0

  unfoldable pub run_command : ℕ → Session → List ℕ → List ℕ → Session
  unfolding type_2all type_2one client_send_list_request client_send_stop client_stop
  run_command now s command rest =
      if str_eq command (codes "help")
      then s
      else if str_eq command (codes "list")
      then (client_send_list_request net now s).1
      else if str_eq command (codes "2all")
      then type_2all now s rest
      else if str_eq command (codes "2one")
      then type_2one now s rest
      else if str_eq command (codes "quit")
          || str_eq command (codes "exit")
          || str_eq command (codes "stop")
      then client_stop (client_send_stop net now s).1
      else s

  -- `none`: the text and its 0 are longer than the block that `strcpy` writes to, and the program's
  -- behaviour is undefined.
  unfoldable pub handle_user_input : ℕ → Session → List ℕ → Option Session
  unfolding strtok run_command strlen cstr
  handle_user_input now s input =
      if leb max_message_size (strlen input)
      then none
      else if strlen (trim_whitespace (cstr input)) == 0
      then some s
      else let (command, rest) = strtok space (trim_whitespace (cstr input)) in
        elim command [ none ↦ some s | some command ↦ some (run_command now s command rest) ]
