-- ===== src/Printers/Documents.antt =====
-- The documents of lab7/src: ten letters and a 0, which `strcpy` copies whole.
use cs_os.Prelude.{
  ℕ, zero, suc, ◌+◌, ◌<◌, ◌≡◌, refl, ap, List, [], ◌∷◌, ◌++◌, arith, length, get_or, modify,
}
use cs_os.Chat.CString.{cstr, overwrite}
use cs_os.Printers.{letters, set_doc, strcpy, msg_size}

-- A text and its 0 fill the array.
pub record IsDoc (doc : List ℕ) : Type 0 where
  pub text : cstr doc ++ 0 ∷ [] ≡ doc
  pub size : length doc ≡ msg_size

letters-text : (rand : ℕ → ℕ) (i n : ℕ) → cstr (letters rand i n) ++ 0 ∷ [] ≡ letters rand i n
unfolding letters cstr
letters-text rand i zero = refl
letters-text rand i (suc n) = ground (arith, letters-text rand (i + 1) n)

length-letters : (rand : ℕ → ℕ) (i n : ℕ) → length (letters rand i n) ≡ suc n
unfolding letters
length-letters rand i zero = refl
length-letters rand i (suc n) = ap suc (length-letters rand (i + 1) n)

pub set_doc-IsDoc : (rand : ℕ → ℕ) → IsDoc (set_doc rand)
unfolding set_doc
set_doc-IsDoc rand = record { text = letters-text rand 0 10; size = length-letters rand 0 10 }

overwrite-same_length :
    (dest bytes : List ℕ) → length dest ≡ length bytes → overwrite dest bytes ≡ bytes
unfolding overwrite
overwrite-same_length [] [] h = refl
overwrite-same_length [] (b ∷ bytes) h = absurd (omega arith)
overwrite-same_length (d ∷ dest) [] h = absurd (omega arith)
overwrite-same_length (d ∷ dest) (b ∷ bytes) h =
    ap (◌∷◌ b) (overwrite-same_length dest bytes (omega arith))

length-overwrite : (dest bytes : List ℕ) → length (overwrite dest bytes) ≡ length dest
unfolding overwrite
length-overwrite dest [] = refl
length-overwrite [] (b ∷ bytes) = refl
length-overwrite (d ∷ dest) (b ∷ bytes) = ap suc (length-overwrite dest bytes)

pub length-strcpy : (dest src : List ℕ) → length (strcpy dest src) ≡ length dest
unfolding strcpy
length-strcpy dest src = length-overwrite dest (cstr src ++ 0 ∷ [])

-- A document replaces what stood in an array of its size.
pub strcpy-IsDoc : (dest doc : List ℕ) → length dest ≡ msg_size → IsDoc doc → strcpy dest doc ≡ doc
unfolding strcpy
strcpy-IsDoc dest doc h d = rw (d.text) (overwrite-same_length dest doc (omega (arith, d.size)))

module _ {ℓ κ} {A : Type ℓ} (P : A → Type κ) where
  abbrev pub All : List A → Type κ
  All [] = Unit
  All (x ∷ xs) = P x × All xs

  pub All-append : (xs ys : List A) → All xs → All ys → All (xs ++ ys)
  All-append [] ys a b = b
  All-append (x ∷ xs) ys a b = (a.0, All-append xs ys a.1 b)

  pub All-append_right : (xs ys : List A) → All (xs ++ ys) → All ys
  All-append_right [] ys a = a
  All-append_right (x ∷ xs) ys a = All-append_right xs ys a.1

  pub All-get_or : (xs : List A) (i : ℕ) (d : A) → i < length xs → All xs → P (get_or xs i d)
  All-get_or [] i d h a = absurd (omega arith)
  All-get_or (x ∷ xs) zero d h a = a.0
  All-get_or (x ∷ xs) (suc i) d h a = All-get_or xs i d (omega arith) a.1

  pub All-modify :
      (xs : List A) (i : ℕ) (f : A → A) → ((x : A) → P x → P (f x)) → All xs → All (modify xs i f)
  All-modify [] i f h a = tt
  All-modify (x ∷ xs) zero f h a = (h x a.0, a.1)
  All-modify (x ∷ xs) (suc i) f h a = (a.0, All-modify xs i f h a.1)
