-- ===== src/MessageQueues.antt =====
-- The chat over message queues, lab6/src: what its servers and clients use of printf and scanf, by
-- what the C standard says they do.
pub mod Systemv
pub mod Posix
pub mod Laws
mod Tests
use cs_os.Prelude.{
  ℕ, zero, suc, ◌+◌, ◌-◌, ◌*◌, ◌/◌, ◌%◌, Bool, true, false, ◌&&◌, ◌||◌, not, Option, none, some,
  List, [], ◌∷◌, ◌++◌, ◌==◌, ltb, leb, if◌then◌else◌, ℤ, pos, negsuc,
}

abbrev pub msg_size : ℕ
msg_size = 1024

abbrev pub max_clients : ℕ
max_clients = 10

-- The digits of a number, in front of others; `fuel` is more than the number has digits.
unfoldable pub digits : (fuel n : ℕ) → List ℕ → List ℕ
digits zero n rest = rest
digits (suc fuel) n rest =
    let more = digits fuel (n / 10) ((48 + n % 10) ∷ rest) in
    if ltb n 10 then (48 + n) ∷ rest else more

-- `%d`
unfoldable pub print_int : ℤ → List ℕ
unfolding digits
print_int (pos n) = digits (suc n) n []
print_int (negsuc n) = 45 ∷ digits (suc (suc n)) (suc n) []

-- `isspace`
unfoldable pub is_space : ℕ → Bool
is_space c = (c == 32) || (leb 9 c && leb c 13)

-- A blank in a format, and what `%d` and `%s` do first.
unfoldable pub skip_space : List ℕ → List ℕ
unfolding is_space
skip_space [] = []
skip_space (c ∷ cs) = let rest = skip_space cs in if is_space c then rest else c ∷ cs

-- The number that the digits in front continue, and the text after them.
unfoldable pub scan_digits : ℕ → List ℕ → ℕ × List ℕ
scan_digits n [] = (n, [])
scan_digits n (c ∷ cs) =
    let rest = scan_digits (10 * n + (c - 48)) cs in
    if leb 48 c && leb c 57 then rest else (n, c ∷ cs)

unfoldable pub is_digit_first : List ℕ → Bool
is_digit_first [] = false
is_digit_first (c ∷ cs) = leb 48 c && leb c 57

abbrev pub negate : ℕ → ℤ
negate zero = pos 0
negate (suc n) = negsuc n

unfoldable pub scan_unsigned : (ℕ → ℤ) → List ℕ → Option (ℤ × List ℕ)
unfolding is_digit_first scan_digits
scan_unsigned sign cs =
    let (n, rest) = scan_digits 0 cs in if is_digit_first cs then some (sign n, rest) else none

unfoldable pub scan_sign : List ℕ → Option (ℤ × List ℕ)
unfolding scan_unsigned
scan_sign [] = none
scan_sign (c ∷ cs) =
    if c == 45
    then scan_unsigned negate cs
    else if c == 43
    then scan_unsigned pos cs
    else scan_unsigned pos (c ∷ cs)

-- `%d`: the number, taken to fit, and the text after it.
unfoldable pub scan_int : List ℕ → Option (ℤ × List ℕ)
unfolding skip_space scan_sign
scan_int cs = scan_sign (skip_space cs)

-- `%[^\n]`
unfoldable pub until_newline : List ℕ → List ℕ
until_newline [] = []
until_newline (c ∷ cs) = let rest = until_newline cs in if c == 10 then [] else c ∷ rest

-- `sscanf(text, "%d %[^\n]", …) == 2`, and the two results.
unfoldable pub scan_message : List ℕ → Option (ℤ × List ℕ)
unfolding scan_int skip_space until_newline
scan_message text = elim (scan_int text) [
  | none ↦ none
  | some (from, rest) ↦ elim (until_newline (skip_space rest)) [
    | [] ↦ none
    | c ∷ cs ↦ some (from, c ∷ cs)
  ]
]

-- At most `n` characters up to white space.
unfoldable pub word : ℕ → List ℕ → List ℕ
unfolding is_space
word zero cs = []
word (suc n) [] = []
word (suc n) (c ∷ cs) = let rest = word n cs in if is_space c then [] else c ∷ rest

-- `sscanf(text, "%63s", …) == 1`, and the result.
unfoldable pub scan_path : List ℕ → Option (List ℕ)
unfolding word skip_space
scan_path text = elim (word 63 (skip_space text)) [ [] ↦ none | c ∷ cs ↦ some (c ∷ cs) ]

-- `strncmp(text, prefix, n) == 0`, where `n` is the length of the prefix, and the text behind it.
unfoldable pub after_prefix : List ℕ → List ℕ → Option (List ℕ)
after_prefix [] text = some text
after_prefix (p ∷ ps) [] = none
after_prefix (p ∷ ps) (c ∷ cs) = let rest = after_prefix ps cs in if p == c then rest else none
