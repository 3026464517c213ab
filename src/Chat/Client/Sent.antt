-- ===== src/Chat/Client/Sent.antt =====
-- The datagram that a typed line makes the client send (lab11/src/client.c).
use cs_os.Prelude.{
  ℕ, zero, suc, ◌+◌, ◌-◌, ◌<◌, ◌≤◌, ◌≡◌, ◌≢◌, refl, ◌∙◌, ap, sym, false, ◌==◌, some, List, [], ◌∷◌,
  ◌++◌, arith, length, take, pos,
}
use cs_os.Chat.CString.{codes, cstr, strlen, strncpy, zeros}
use cs_os.Chat.CString.Laws.{cstr-strncpy, length-zeros}
use cs_os.Chat.Message.{Message, msg_2one, max_message_size, max_client_name}
use cs_os.Chat.Protocol.{Sendto, sizeof_sockaddr}
use cs_os.Chat.Client.{
  Session, client_send_2one, request, with_content, with_recipient, send_to_server,
}
use cs_os.Chat.Client.Input.{handle_user_input}
use cs_os.Chat.Client.Requests.{set-strncpy}
use cs_os.Chat.Client.Typed.{
  IsText, IsWord, IsText-IsWord, cstr-IsText, strlen-IsText, handle_user_input-2one,
}
use cs_os.Chat.Server.Delivery.{attempts, attempts-send_message_protocol}

take-short : {A : Type 0} (n : ℕ) (xs : List A) → length xs ≤ n → take n xs ≡ xs
take-short zero [] l = refl
take-short zero (x ∷ xs) l = absurd (omega (arith, l))
take-short (suc n) [] l = refl
take-short (suc n) (x ∷ xs) l = ap (λ t. x ∷ t) (take-short n xs (omega (arith, l)))

-- A text in an array of zeros.
cstr-strncpy-zeros :
    (size : ℕ) (t : List ℕ)
    → 0 < size
    → cstr (strncpy (zeros size) t (size - 1)) ≡ take (size - 1) (cstr t)
cstr-strncpy-zeros size t h =
    ap cstr (sym (set-strncpy size (size - 1) t (omega arith)))
    ∙ cstr-strncpy (zeros size) t (size - 1) (omega (arith, length-zeros size))

-- The message for this name with this text.
abbrev private_message : ℕ → Session → List ℕ → List ℕ → Message
private_message now s r m = with_content m (with_recipient r (request s.client msg_2one now))

module _ (sendto : Sendto) where
  client_send_2one-sends :
      (fd now : ℕ) (s : Session) (r m : List ℕ)
      → s.server_socket ≡ some fd
      → (strlen m == 0) ≡ false
      → (attempts (client_send_2one sendto now s r m).1.log
          ≡ (fd, private_message now s r m, s.server_addr) ∷ attempts s.log)
        × ((client_send_2one sendto now s r m).1.client ≡ s.client)
  unfolding client_send_2one send_to_server
  client_send_2one-sends fd now s r m e some_text =
      rw (some_text, client_send_2one, e)
        (
          attempts-send_message_protocol sendto fd (private_message now s r m) s.server_addr
              sizeof_sockaddr s.log (omega arith),
          refl,
        )

  -- The line "2one", a name without spaces and a text makes the client try once to send one
  -- datagram, to the server's address: a private message with its own name, at most the first 99
  -- bytes of the name typed, exactly the text typed, spaces in it and in front of it included, the
  -- length of that text and the time. The line is shorter than the block it is copied to, and the
  -- socket is open; what the client holds besides the log does not change.
  pub attempts-handle_user_input :
      (fd now : ℕ) (s : Session) (input r m : List ℕ)
      → s.server_socket ≡ some fd
      → cstr input ≡ codes "2one " ++ (r ++ 32 ∷ m)
      → length r + length m + 6 < max_message_size
      → r ≢ []
      → IsWord r
      → m ≢ []
      → IsText m
      → (s' : Session) × (msg : Message) × (handle_user_input sendto now s input ≡ some s')
        × (attempts s'.log ≡ (fd, msg, s.server_addr) ∷ attempts s.log)
        × (s'.client ≡ s.client)
        × (msg.type ≡ msg_2one)
        × (cstr msg.sender_id ≡ take 99 (cstr s.client_id))
        × (cstr msg.recipient_id ≡ take 99 r)
        × (cstr msg.content ≡ m)
        × (msg.content_length ≡ pos (length m))
        × (msg.timestamp ≡ pos now)
  attempts-handle_user_input fd now s input r m e line short rn rword mn mt =
      let (once, same) = client_send_2one-sends fd now s r m e (strlen-IsText m mn mt) in
      (
        (client_send_2one sendto now s r m).1,
        private_message now s r m,
        handle_user_input-2one sendto now s input r m line short rn rword mn mt,
        once,
        same,
        unfold with_content with_recipient request in refl,
        unfold with_content with_recipient request in
            cstr-strncpy-zeros max_client_name s.client_id (omega arith),
        unfold with_content with_recipient in recipient,
        unfold with_content in content,
        unfold with_content strlen in ap (λ t. pos (length t)) (cstr-IsText m mt),
        unfold with_content with_recipient request in refl,
      )
    where
      recipient : cstr (strncpy (zeros max_client_name) r (max_client_name - 1)) ≡ take 99 r
      recipient =
          cstr-strncpy-zeros max_client_name r (omega arith)
          ∙ ap (take 99) (cstr-IsText r (IsText-IsWord r rword))

      content : cstr (strncpy (zeros max_message_size) m (max_message_size - 1)) ≡ m
      content =
          cstr-strncpy-zeros max_message_size m (omega arith)
          ∙ ap (take 1023) (cstr-IsText m mt)
          ∙ take-short 1023 m (omega (arith, short))
