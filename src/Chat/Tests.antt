-- ===== src/Chat/Tests.antt =====
-- The theorems on texts and messages applied to small inputs (lab11/src/common.c).
use cs_os.Prelude.{ℕ, ◌≡◌, refl, List, ◌++◌}
use cs_os.Chat.CString.{codes, cstr, strlen, safe_strcat, zeros}

abbrev small : List ℕ
small = codes "ab" ++ zeros 4

-- Six bytes hold five characters: the end of the second text is cut off.
cut_off : cstr (safe_strcat small (codes "cdef") 6) ≡ codes "abcde"
unfolding safe_strcat strlen cstr
cut_off = refl
