-- ===== src/Chat/CString/Laws.antt =====
-- What the bounded string calls of lab11/src/common.c leave in an array.
use cs_os.Prelude.{
  ℕ, zero, suc, ◌+◌, ◌-◌, ◌≤◌, ◌<◌, ◌≡◌, ◌↔◌, refl, ap, true, List, [], ◌∷◌, ◌++◌, arith, length,
  take, set, length-replicate, length-set, length-take, get_or-set_self, get_or, take-append,
  take-of_eq_zero, append-nil,
}
use cs_os.Chat.CString.{
  zeros, cstr, strlen, list_eq, str_eq, strncpy, overwrite, strncat, safe_strcpy, safe_strcat,
}

pub length-zeros : (n : ℕ) → length (zeros n) ≡ n
length-zeros n = length-replicate n 0

pub length-strncpy : (dest src : List ℕ) (n : ℕ) → length (strncpy dest src n) ≡ length dest
unfolding strncpy
length-strncpy dest src zero = refl
length-strncpy [] src (suc n) = refl
length-strncpy (d ∷ dest) [] (suc n) = ap suc (length-strncpy dest [] n)
length-strncpy (d ∷ dest) (c ∷ src) (suc n) = ap suc (length-strncpy dest _ n)

-- The text in an array of zeros is empty.
cstr-strncpy-nil :
    (dest : List ℕ) (n : ℕ) → n < length dest → cstr (set (strncpy dest [] n) n 0) ≡ []
unfolding cstr strncpy
cstr-strncpy-nil [] n h = absurd (omega arith)
cstr-strncpy-nil (d ∷ dest) zero h = refl
cstr-strncpy-nil (d ∷ dest) (suc n) h = refl

-- A bounded copy with its terminator holds the text, cut to the room.
pub cstr-strncpy :
    (dest src : List ℕ) (n : ℕ)
    → n < length dest
    → cstr (set (strncpy dest src n) n 0) ≡ take n (cstr src)
unfolding cstr strncpy
cstr-strncpy [] src n h = absurd (omega arith)
cstr-strncpy (d ∷ dest) src zero h = refl
cstr-strncpy (d ∷ dest) [] (suc n) h = refl
cstr-strncpy (d ∷ dest) (c ∷ src) (suc n) h = ground (arith, cstr-strncpy dest src n)

pub cstr-safe_strcpy :
    (dest src : List ℕ) (size : ℕ)
    → 0 < size
    → size ≤ length dest
    → cstr (safe_strcpy dest src size) ≡ take (size - 1) (cstr src)
unfolding safe_strcpy
cstr-safe_strcpy dest src size h k = ground (arith, cstr-strncpy dest src (size - 1))

pub length-safe_strcpy :
    (dest src : List ℕ) (size : ℕ) → length (safe_strcpy dest src size) ≡ length dest
unfolding safe_strcpy
length-safe_strcpy dest src size = ground (
  arith,
  length-strncpy dest src (size - 1),
  length-set (strncpy dest src (size - 1)) (size - 1) 0,
)

-- The byte that `validate_message` looks at.
pub get_or-safe_strcpy :
    (dest src : List ℕ) (size : ℕ)
    → 0 < size
    → size ≤ length dest
    → get_or (safe_strcpy dest src size) (size - 1) 1 ≡ 0
unfolding safe_strcpy
get_or-safe_strcpy dest src size h k = ground (
  arith,
  length-strncpy dest src (size - 1),
  get_or-set_self (strncpy dest src (size - 1)) (size - 1) 0 1,
)

pub cstr-take-cstr : (n : ℕ) (s : List ℕ) → cstr (take n (cstr s)) ≡ take n (cstr s)
unfolding cstr
cstr-take-cstr zero s = refl
cstr-take-cstr (suc n) [] = refl
cstr-take-cstr (suc n) (c ∷ s) = ground (arith, cstr-take-cstr n s)

pub cstr-cstr : (s : List ℕ) → cstr (cstr s) ≡ cstr s
unfolding cstr
cstr-cstr [] = refl
cstr-cstr (c ∷ s) = ground (arith, cstr-cstr s)

pub strlen-le-length : (s : List ℕ) → strlen s ≤ length s
unfolding strlen cstr
strlen-le-length [] = omega arith
strlen-le-length (c ∷ s) = ground (arith, strlen-le-length s)

cstr-overwrite :
    (dest xs : List ℕ) → length xs < length dest → cstr (overwrite dest (xs ++ 0 ∷ [])) ≡ cstr xs
unfolding cstr overwrite
cstr-overwrite [] xs h = absurd (omega arith)
cstr-overwrite (d ∷ dest) [] h = refl
cstr-overwrite (d ∷ dest) (x ∷ xs) h = ground (arith, cstr-overwrite dest xs)

length-overwrite : (dest xs : List ℕ) → length (overwrite dest xs) ≡ length dest
unfolding overwrite
length-overwrite [] [] = refl
length-overwrite [] (x ∷ xs) = refl
length-overwrite (d ∷ dest) [] = refl
length-overwrite (d ∷ dest) (x ∷ xs) = ap suc (length-overwrite dest xs)

length-strncat : (dest src : List ℕ) (n : ℕ) → length (strncat dest src n) ≡ length dest
unfolding strncat
length-strncat [] src n = refl
length-strncat (d ∷ dest) src n =
    ground
      (arith, length-strncat dest src n, length-overwrite (d ∷ dest) (take n (cstr src) ++ 0 ∷ []))

cstr-strncat :
    (dest src : List ℕ) (n : ℕ)
    → strlen dest + n < length dest
    → cstr (strncat dest src n) ≡ cstr dest ++ take n (cstr src)
unfolding cstr strncat strlen
cstr-strncat [] src n h = absurd (omega arith)
cstr-strncat (d ∷ dest) src n h = ground (
  arith,
  cstr-strncat dest src n,
  cstr-overwrite (d ∷ dest) (take n (cstr src)),
  cstr-take-cstr n src,
  length-take n (cstr src),
)

pub length-safe_strcat :
    (dest src : List ℕ) (size : ℕ) → length (safe_strcat dest src size) ≡ length dest
unfolding safe_strcat
length-safe_strcat dest src size = ground (arith, length-strncat dest src (size - strlen dest - 1))

-- A bounded append holds both texts, cut to the room.
pub cstr-safe_strcat :
    (dest src : List ℕ) (size : ℕ)
    → strlen dest < size
    → size ≤ length dest
    → cstr (safe_strcat dest src size) ≡ take (size - 1) (cstr dest ++ cstr src)
unfolding safe_strcat strlen
cstr-safe_strcat dest src size h k = ground (
  arith,
  cstr-strncat dest src (size - strlen dest - 1),
  take-append (size - 1) (cstr dest) (cstr src),
  take-of_eq_zero (size - 1 - length (cstr dest)) (cstr src),
  append-nil (cstr dest),
  room,
)
  where
    room : size - strlen dest - 1 ≡ size - 1 - length (cstr dest)
    room = omega arith

list_eq_iff : (xs ys : List ℕ) → (list_eq xs ys ≡ true) ↔ (xs ≡ ys)
unfolding list_eq
list_eq_iff [] [] = (λ _. refl, λ _. refl)
list_eq_iff [] (y ∷ ys) = (λ h. cc, λ h. cc)
list_eq_iff (x ∷ xs) [] = (λ h. cc, λ h. cc)
list_eq_iff (x ∷ xs) (y ∷ ys) = ground (arith, list_eq_iff xs ys)

-- `strcmp` finds two arrays equal exactly when they hold the same text.
pub str_eq_iff : (a b : List ℕ) → (str_eq a b ≡ true) ↔ (cstr a ≡ cstr b)
unfolding str_eq
str_eq_iff a b = list_eq_iff (cstr a) (cstr b)
