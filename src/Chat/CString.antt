-- ===== src/Chat/CString.antt =====
-- C strings in fixed arrays: the string.h calls of lab11/src/common.c, and the two bounded wrappers
-- that it defines over them.
-- An array is the list of its bytes. A text is what stands before the first 0; where an array has
-- none, the text ends with the array. A literal is a list of bytes with no 0.
pub mod Laws
use cs_os.Prelude.{
  ℕ, zero, suc, ◌+◌, ◌-◌, Bool, true, false, ◌&&◌, List, [], ◌∷◌, ◌++◌, ◌==◌, leb, if◌then◌else◌,
  length, take, set, replicate,
}
use Prim.Native.Char.{code}
use Prim.Native.String.{String}

-- The bytes of an ASCII literal.
abbrev pub codes : String → List ℕ
codes String.[] = []
codes (String.◌∷◌ c s) = code c ∷ codes s

-- `memset(array, 0, n)`
abbrev pub zeros : ℕ → List ℕ
zeros n = replicate n 0

-- The text of an array.
unfoldable pub cstr : List ℕ → List ℕ
cstr [] = []
cstr (c ∷ cs) = let rest = cstr cs in if c == 0 then [] else c ∷ rest

unfoldable pub strlen : List ℕ → ℕ
unfolding cstr
strlen s = length (cstr s)

list_eq : List ℕ → List ℕ → Bool
list_eq [] [] = true
list_eq (x ∷ xs) (y ∷ ys) = (x == y) && list_eq xs ys
list_eq _ _ = false

-- `strcmp(a, b) == 0`
unfoldable pub str_eq : List ℕ → List ℕ → Bool
unfolding list_eq cstr
str_eq a b = list_eq (cstr a) (cstr b)

-- `n` bytes are written: those of the text, then zeros.
unfoldable pub strncpy : List ℕ → List ℕ → ℕ → List ℕ
strncpy dest src zero = dest
strncpy [] src (suc n) = []
strncpy (d ∷ dest) [] (suc n) = 0 ∷ strncpy dest [] n
strncpy (d ∷ dest) (c ∷ src) (suc n) = c ∷ strncpy dest (if c == 0 then [] else src) n

-- Writes over the front of an array.
unfoldable pub overwrite : List ℕ → List ℕ → List ℕ
overwrite dest [] = dest
overwrite [] (b ∷ bytes) = []
overwrite (d ∷ dest) (b ∷ bytes) = b ∷ overwrite dest bytes

-- At most `n` bytes of the text go to the end of the text in `dest`, and then a 0.
unfoldable pub strncat : List ℕ → List ℕ → ℕ → List ℕ
strncat [] src n = []
strncat (d ∷ dest) src n =
    let rest = strncat dest src n in
    if d == 0 then overwrite (d ∷ dest) (take n (cstr src) ++ 0 ∷ []) else d ∷ rest

unfoldable pub safe_strcpy : List ℕ → List ℕ → ℕ → List ℕ
unfolding strncpy
safe_strcpy dest src dest_size =
    if dest_size == 0 then dest else set (strncpy dest src (dest_size - 1)) (dest_size - 1) 0

unfoldable pub safe_strcat : List ℕ → List ℕ → ℕ → List ℕ
unfolding strncat overwrite strlen
safe_strcat dest src dest_size =
    if dest_size == 0
    then dest
    else if leb (dest_size - 1) (strlen dest)
    then dest
    else strncat dest src (dest_size - strlen dest - 1)
