-- ===== src/Chat/Message.antt =====
-- lab11/src/common.h and the functions of lab11/src/common.c that build and check messages.
-- `char` arrays are lists of bytes, and pointers that may be NULL are options. `time(NULL)` is an
-- argument, in seconds since 1970.
pub mod ClientId
pub mod Valid
use cs_os.Prelude.{
  ℕ, zero, suc, ◌+◌, ◌-◌, Bool, true, false, ◌&&◌, ◌||◌, not, Option, none, some, List, [], ◌∷◌,
  ◌≡◌, ◌==◌, leb, ltb, if◌then◌else◌, length, take, set, get_or, ℤ, pos, sub_ℕ, ltb_ℤ,
}
use cs_os.Chat.CString.{cstr, strlen, strncpy, zeros}

abbrev pub max_client_name : ℕ
max_client_name = 100

abbrev pub max_message_size : ℕ
max_message_size = 1024

-- `MessageType`; a datagram can carry any number there, and `out_of_range n` is `MSG_PRIVATE + 1 + n`.
pub data MessageType : Type 0 where
  msg_list msg_2all msg_2one msg_stop msg_alive msg_alive_response msg_error : MessageType
  msg_client_list msg_broadcast msg_private : MessageType
  out_of_range : ℕ → MessageType

unfoldable pub type_code : MessageType → ℕ
type_code msg_list = 0
type_code msg_2all = 1
type_code msg_2one = 2
type_code msg_stop = 3
type_code msg_alive = 4
type_code msg_alive_response = 5
type_code msg_error = 6
type_code msg_client_list = 7
type_code msg_broadcast = 8
type_code msg_private = 9
type_code (out_of_range n) = 10 + n

pub record Message : Type 0 where
  pub type : MessageType
  pub sender_id : List ℕ
  pub recipient_id : List ℕ
  pub content : List ℕ
  pub timestamp : ℤ
  pub content_length : ℤ

-- `sizeof(Message)`, with the padding of a 64-bit machine.
abbrev pub sizeof_message : ℕ
sizeof_message = 1248

-- The sizes of the arrays, which every `Message` has.
pub record HasArrays (m : Message) : Type 0 where
  pub sender_size : length m.sender_id ≡ max_client_name
  pub recipient_size : length m.recipient_id ≡ max_client_name
  pub content_size : length m.content ≡ max_message_size

-- `Message msg = {0}`
unfoldable pub empty_message : Message
empty_message = record {
  type = msg_list;
  sender_id = zeros max_client_name;
  recipient_id = zeros max_client_name;
  content = zeros max_message_size;
  timestamp = pos 0;
  content_length = pos 0;
}

-- `strncpy(field, text, size - 1); field[size - 1] = '\0'` on an array of zeros, unless `text` is
-- NULL.
unfoldable pub fill : ℕ → Option (List ℕ) → List ℕ
unfolding strncpy
fill size none = zeros size
fill size (some text) = set (strncpy (zeros size) text (size - 1)) (size - 1) 0

-- The content's length is 0 where there is no content: `strlen` of the array of zeros.
unfoldable pub create_message :
    MessageType → Option (List ℕ) → Option (List ℕ) → Option (List ℕ) → ℕ → Message
unfolding fill
create_message type sender recipient content now = record {
  type = type;
  sender_id = fill max_client_name sender;
  recipient_id = fill max_client_name recipient;
  content = fill max_message_size content;
  timestamp = pos now;
  content_length = pos (strlen (fill max_message_size content));
}

-- The checks of `validate_message`, in its order; `now` is its `time(NULL)`.
unfoldable pub validate_message : ℕ → Message → Bool
validate_message now m =
    if ltb 9 (type_code m.type)
    then false
    else if ltb_ℤ m.content_length (pos 0) || not (ltb_ℤ m.content_length (pos max_message_size))
    then false
    else if not (get_or m.sender_id (max_client_name - 1) 1 == 0)
    then false
    else if not (get_or m.recipient_id (max_client_name - 1) 1 == 0)
    then false
    else if not (get_or m.content (max_message_size - 1) 1 == 0)
    then false
    else if ltb_ℤ m.timestamp (sub_ℕ now 3600)
    then false
    else if ltb_ℤ (pos (now + 300)) m.timestamp
    then false
    else true

-- `isdigit` and `isalnum` of the C locale.
unfoldable pub is_digit : ℕ → Bool
is_digit c = leb b'0' c && leb c b'9'

unfoldable pub is_alnum : ℕ → Bool
unfolding is_digit
is_alnum c = is_digit c || (leb b'a' c && leb c b'z') || (leb b'A' c && leb c b'Z')

-- The loop over the characters of an id.
unfoldable pub id_characters : List ℕ → Bool
id_characters [] = true
id_characters (c ∷ cs) =
    let rest = id_characters cs in if not (is_alnum c) && not (c == b'_') then false else rest

unfoldable pub validate_client_id : Option (List ℕ) → Bool
unfolding id_characters strlen
validate_client_id none = false
validate_client_id (some id) =
    if (strlen id == 0) || leb max_client_name (strlen id)
    then false
    else if is_digit (get_or id 0 0)
    then false
    else id_characters (cstr id)
