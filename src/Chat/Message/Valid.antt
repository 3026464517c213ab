-- ===== src/Chat/Message/Valid.antt =====
-- Messages that are built by `create_message` pass `validate_message` (lab11/src/common.c).
use cs_os.Prelude.{
  ℕ, zero, suc, ◌+◌, ◌-◌, ◌≤◌, ◌<◌, ◌≡◌, refl, true, Option, none, some, List, [], arith, length,
  take, get_or, get_or-set_self, length-set, length-take, ap,
}
use cs_os.Chat.CString.{cstr, strlen, strncpy, zeros}
use cs_os.Chat.CString.Laws.{length-zeros, length-strncpy, cstr-strncpy}
use cs_os.Chat.Message.{
  MessageType, type_code, max_client_name, max_message_size, fill, create_message, validate_message,
  HasArrays,
}

cstr-zeros : (n : ℕ) → cstr (zeros n) ≡ []
unfolding cstr
cstr-zeros zero = refl
cstr-zeros (suc n) = refl

-- A filled array has its size, ends in 0, and holds the text cut to the room.
pub length-fill : (size : ℕ) (text : Option (List ℕ)) → length (fill size text) ≡ size
unfolding fill
length-fill size none = length-zeros size
length-fill size (some t) = omega (
  arith,
  length-set (strncpy (zeros size) t (size - 1)) (size - 1) 0,
  length-strncpy (zeros size) t (size - 1),
  length-zeros size,
)

get_or-zeros : (n i : ℕ) → i < n → get_or (zeros n) i 1 ≡ 0
get_or-zeros zero i h = absurd (omega arith)
get_or-zeros (suc n) zero h = refl
get_or-zeros (suc n) (suc i) h = get_or-zeros n i (omega arith)

pub get_or-fill :
    (size : ℕ) (text : Option (List ℕ)) → 0 < size → get_or (fill size text) (size - 1) 1 ≡ 0
unfolding fill
get_or-fill size none h = get_or-zeros size (size - 1) (omega arith)
get_or-fill size (some t) h =
    get_or-set_self (strncpy (zeros size) t (size - 1)) (size - 1) 0 1
      (omega (arith, length-strncpy (zeros size) t (size - 1), length-zeros size))

pub cstr-fill :
    (size : ℕ) (t : List ℕ) → 0 < size → cstr (fill size (some t)) ≡ take (size - 1) (cstr t)
unfolding fill
cstr-fill size t h = cstr-strncpy (zeros size) t (size - 1) (omega (arith, length-zeros size))

pub strlen-fill : (size : ℕ) (text : Option (List ℕ)) → 0 < size → strlen (fill size text) < size
unfolding strlen
strlen-fill size none h = unfold fill in omega (arith, ap length (cstr-zeros size))
strlen-fill size (some t) h =
    omega (arith, ap length (cstr-fill size t h), length-take (size - 1) (cstr t))

pub create_message-HasArrays :
    (type : MessageType) (sender recipient content : Option (List ℕ)) (now : ℕ)
    → HasArrays (create_message type sender recipient content now)
unfolding create_message
create_message-HasArrays type sender recipient content now = record {
  sender_size = length-fill max_client_name sender;
  recipient_size = length-fill max_client_name recipient;
  content_size = length-fill max_message_size content;
}

-- A message of one of the ten types that `create_message` builds, from texts of any length or NULL,
-- passes `validate_message` on a machine whose clock is at most 5 minutes behind and at most an
-- hour ahead.
pub validate_message-create_message :
    (type : MessageType) (sender recipient content : Option (List ℕ)) (now later : ℕ)
    → type_code type ≤ 9
    → now ≤ later + 300
    → later ≤ now + 3600
    → validate_message later (create_message type sender recipient content now) ≡ true
unfolding validate_message create_message
validate_message-create_message type sender recipient content now later t early late = ground (
  arith,
  get_or-fill max_client_name sender,
  get_or-fill max_client_name recipient,
  get_or-fill max_message_size content,
  strlen-fill max_message_size content,
)
