-- ===== src/Chat/Message/ClientId.antt =====
-- What `validate_client_id` (lab11/src/common.c) accepts.
use cs_os.Prelude.{
  ℕ, ◌<◌, ◌≡◌, ◌↔◌, ◌⊎◌, refl, true, false, some, List, [], ◌∷◌, arith, length, get_or,
}
use cs_os.Chat.CString.{cstr, strlen}
use cs_os.Chat.Message.{max_client_name, is_digit, is_alnum, id_characters, validate_client_id}

-- The accepted form of an id: 1 to 99 letters, digits and underscores, the first no digit.
abbrev pub All {ℓ κ} : {A : Type ℓ} → (A → Type κ) → List A → Type κ
All P [] = Unit
All P (x ∷ xs) = P x × All P xs

abbrev pub IsIdCharacter : ℕ → Type 0
IsIdCharacter c = (is_alnum c ≡ true) ⊎ (c ≡ b'_')

pub record IsClientId (text : List ℕ) : Type 0 where
  pub some_text : 0 < length text
  pub short : length text < max_client_name
  pub no_digit_first : is_digit (get_or text 0 0) ≡ false
  pub characters : All IsIdCharacter text

id_characters_iff : (s : List ℕ) → (id_characters s ≡ true) ↔ All IsIdCharacter s
unfolding id_characters
id_characters_iff [] = (λ _. tt, λ _. refl)
id_characters_iff (c ∷ s) = ground (arith, id_characters_iff s)

head-cstr : (s : List ℕ) → 0 < length (cstr s) → get_or (cstr s) 0 0 ≡ get_or s 0 0
unfolding cstr
head-cstr [] h = refl
head-cstr (c ∷ s) h = ground arith

-- `validate_client_id` accepts an array exactly when its text has the accepted form.
pub validate_client_id_iff :
    (id : List ℕ) → (validate_client_id (some id) ≡ true) ↔ IsClientId (cstr id)
unfolding validate_client_id strlen
validate_client_id_iff id = (
  λ h. ground (arith, id_characters_iff (cstr id), head-cstr id),
  λ v. ground (arith, id_characters_iff (cstr id), head-cstr id),
)
