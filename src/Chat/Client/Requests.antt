-- ===== src/Chat/Client/Requests.antt =====
-- The messages of the client against those that `create_message` builds (lab11/src/client.c and
-- lab11/src/common.c), and which of them the server accepts.
use cs_os.Prelude.{
  ℕ, zero, suc, ◌+◌, ◌-◌, ◌≤◌, ◌<◌, ◌≡◌, refl, some, List, [], ◌∷◌, arith, set, get_or, ltb, ap,
  pos, sym,
}
use cs_os.Chat.CString.{strlen, strncpy, zeros}
use cs_os.Chat.Message.{
  Message, msg_2one, max_client_name, max_message_size, fill, validate_message, type_code,
}
use cs_os.Chat.Message.Valid.{get_or-fill}
use cs_os.Chat.Client.{Client, request, with_content, with_recipient}

-- The last byte of an array of zeros is 0 without being set.
fill-strncpy-nil : (n m : ℕ) → m < n → set (strncpy (zeros n) [] m) m 0 ≡ strncpy (zeros n) [] m
unfolding strncpy
fill-strncpy-nil zero m h = absurd (omega arith)
fill-strncpy-nil (suc n) zero h = refl
fill-strncpy-nil (suc n) (suc m) h = ap (λ l. 0 ∷ l) (fill-strncpy-nil n m (omega arith))

pub set-strncpy :
    (n m : ℕ) (t : List ℕ) → m < n → set (strncpy (zeros n) t m) m 0 ≡ strncpy (zeros n) t m
unfolding strncpy
set-strncpy zero m t h = absurd (omega arith)
set-strncpy (suc n) zero t h = refl
set-strncpy (suc n) (suc m) [] h = ap (λ l. 0 ∷ l) (fill-strncpy-nil n m (omega arith))
set-strncpy (suc n) (suc m) (c ∷ t) h = ap (λ l. c ∷ l) (set-strncpy n m _ (omega arith))

pub strncpy-fill :
    (size : ℕ) (t : List ℕ) → 0 < size → strncpy (zeros size) t (size - 1) ≡ fill size (some t)
unfolding fill
strncpy-fill size t h = sym (set-strncpy size (size - 1) t (omega arith))

last-strncpy :
    (size : ℕ) (t : List ℕ) → 0 < size → get_or (strncpy (zeros size) t (size - 1)) (size - 1) 1 ≡ 0
last-strncpy size t h = rw (strncpy-fill size t h) (get_or-fill size (some t) h)

-- What `validate_message` makes of a message with terminated arrays and a recent time.
validate_message-length :
    (m : Message) (n now later : ℕ)
    → type_code m.type ≤ 9
    → get_or m.sender_id (max_client_name - 1) 1 ≡ 0
    → get_or m.recipient_id (max_client_name - 1) 1 ≡ 0
    → get_or m.content (max_message_size - 1) 1 ≡ 0
    → m.timestamp ≡ pos now
    → m.content_length ≡ pos n
    → now ≤ later + 300
    → later ≤ now + 3600
    → validate_message later m ≡ ltb n max_message_size
unfolding validate_message
validate_message-length m n now later t s r c time len early late =
    rw (time, len, validate_message) (ground arith)

-- A private message of the client passes `validate_message`, on a machine whose clock is at most 5
-- minutes behind and at most an hour ahead, exactly when its text is shorter than the array: the
-- text of a longer one is cut, but its length is not.
pub validate_message-with_content :
    (c : Client) (recipient message : List ℕ) (now later : ℕ)
    → now ≤ later + 300
    → later ≤ now + 3600
    → validate_message later
        (with_content message (with_recipient recipient (request c msg_2one now)))
      ≡ ltb (strlen message) max_message_size
unfolding with_content with_recipient request
validate_message-with_content c recipient message now later early late =
    validate_message-length _ (strlen message) now later (unfold type_code in omega arith)
      (last-strncpy max_client_name c.client_id (omega arith))
      (last-strncpy max_client_name recipient (omega arith))
      (last-strncpy max_message_size message (omega arith)) refl refl early late
