-- ===== src/Chat/Server/Table.antt =====
-- The client table of lab11/src/server.c as a set of names: how the three updates of a slot act on
-- its form and on the number of its clients.
use cs_os.Prelude.{
  ℕ, zero, suc, ◌+◌, ◌≡◌, refl, ◌∙◌, Bool, true, false, Option, some, List, [], ◌∷◌, arith,
  if◌then◌else◌, length, modify, NoneOf, First, NoneOf-get_elem?, find_index-First, get_elem?,
  get_or, take-of_length_le,
}
use cs_os.Chat.CString.{cstr, str_eq}
use cs_os.Chat.CString.Laws.{str_eq_iff, cstr-safe_strcpy, length-safe_strcpy}
use cs_os.Chat.Message.{max_client_name}
use cs_os.Chat.Message.ClientId.{IsClientId}
use cs_os.Chat.Protocol.{SockAddr}
use cs_os.Chat.Server.{ServerClient, Server, find_client_by_id, is_called, is_free, enter}

-- The array of a name has its size, and an active slot holds an id of the accepted form.
pub record IsSlot (c : ServerClient) : Type 0 where
  pub name_size : length c.client_id ≡ max_client_name
  pub named : c.is_active ≡ true → IsClientId (cstr c.client_id)

-- Slots in order, no two active ones under one name.
abbrev pub IsTable : List ServerClient → Type 0
IsTable [] = Unit
IsTable (c ∷ cs) = IsSlot c × (c.is_active ≡ true → NoneOf (is_called c.client_id) cs) × IsTable cs

unfoldable pub count_active : List ServerClient → ℕ
count_active [] = 0
count_active (c ∷ cs) = (if c.is_active then 1 else 0) + count_active cs

-- An update that enters no name: a slot that is active after it was so before, under its name.
pub record IsQuiet (f : ServerClient → ServerClient) : Type 0 where
  pub slot : (c : ServerClient) → IsSlot c → IsSlot (f c)
  pub same :
      (c : ServerClient)
      → (f c).is_active ≡ true
      → (c.is_active ≡ true) × ((f c).client_id ≡ c.client_id)

NoneOf-modify :
    (test : ServerClient → Bool) (f : ServerClient → ServerClient) (cs : List ServerClient) (k : ℕ)
    → ((c : ServerClient) → test c ≡ false → test (f c) ≡ false)
    → NoneOf test cs
    → NoneOf test (modify cs k f)
NoneOf-modify test f [] k keep n = tt
NoneOf-modify test f (c ∷ cs) zero keep n = (keep c n.0, n.1)
NoneOf-modify test f (c ∷ cs) (suc k) keep n = (n.0, NoneOf-modify test f cs k keep n.1)

is_called-quiet :
    (f : ServerClient → ServerClient) (id : List ℕ) (c : ServerClient)
    → IsQuiet f
    → is_called id c ≡ false
    → is_called id (f c) ≡ false
is_called-quiet f id c q h = ground (arith, q.same c)

pub IsTable-quiet :
    (f : ServerClient → ServerClient) (cs : List ServerClient) (k : ℕ)
    → IsQuiet f
    → IsTable cs
    → IsTable (modify cs k f)
IsTable-quiet f [] k q t = tt
IsTable-quiet f (c ∷ cs) zero q t =
    (q.slot c t.0, λ on. let (was, e) = q.same c on in rw e (t.1 was), t.2)
IsTable-quiet f (c ∷ cs) (suc k) q t = (
  t.0,
  λ on. NoneOf-modify _ f cs k (λ d. is_called-quiet f c.client_id d q) (t.1 on),
  IsTable-quiet f cs k q t.2,
)

-- The text of the array that a new client's slot gets.
pub cstr-enter :
    (socket : Option ℕ) (addr : SockAddr) (id : List ℕ) (now : ℕ) (c : ServerClient)
    → IsSlot c
    → IsClientId (cstr id)
    → cstr (enter socket addr id now c).client_id ≡ cstr id
unfolding enter
cstr-enter socket addr id now c s v =
    cstr-safe_strcpy c.client_id id max_client_name (omega arith) (omega (arith, s.name_size))
    ∙ take-of_length_le 99 (cstr id) (omega (arith, v.short))

str_eq-cong : (a b c : List ℕ) → cstr a ≡ cstr b → str_eq b c ≡ false → str_eq a c ≡ false
str_eq-cong a b c e h = ground (arith, str_eq_iff a c, str_eq_iff b c)

pub str_eq_comm : (a b : List ℕ) → str_eq a b ≡ false → str_eq b a ≡ false
str_eq_comm a b h = ground (arith, str_eq_iff a b, str_eq_iff b a)

module _ (socket : Option ℕ) (addr : SockAddr) (id : List ℕ) (now : ℕ)
    (v : IsClientId (cstr id)) where
  enter-IsSlot : (c : ServerClient) → IsSlot c → IsSlot (enter socket addr id now c)
  enter-IsSlot c s = record {
    name_size = unfold enter in length-safe_strcpy c.client_id id max_client_name ∙ s.name_size;
    named = λ _. rw (cstr-enter socket addr id now c s v) v;
  }

  -- Another name than `id` is not the new client's.
  enter-other :
      (other : List ℕ) (c : ServerClient)
      → IsSlot c
      → str_eq other id ≡ false
      → is_called other (enter socket addr id now c) ≡ false
  enter-other other c s h =
      unfold enter in
      str_eq-cong _ id other (cstr-enter socket addr id now c s v) (str_eq_comm other id h)

  NoneOf-enter :
      (other : List ℕ) (cs : List ServerClient) (k : ℕ)
      → str_eq other id ≡ false
      → IsTable cs
      → NoneOf (is_called other) cs
      → NoneOf (is_called other) (modify cs k (enter socket addr id now))
  NoneOf-enter other [] k h t n = tt
  NoneOf-enter other (c ∷ cs) zero h t n = (enter-other other c t.0 h, n.1)
  NoneOf-enter other (c ∷ cs) (suc k) h t n = (n.0, NoneOf-enter other cs k h t.2 n.1)

  -- No slot has the new client's name where none has `id`.
  NoneOf-new :
      (name : List ℕ) (cs : List ServerClient)
      → cstr name ≡ cstr id
      → NoneOf (is_called id) cs
      → NoneOf (is_called name) cs
  NoneOf-new name [] e n = tt
  NoneOf-new name (c ∷ cs) e n = (
    ground (arith, n.0, str_eq_iff c.client_id id, str_eq_iff c.client_id name),
    NoneOf-new name cs e n.1,
  )

  -- A name that the table lacks goes into a free slot.
  pub IsTable-enter :
      (cs : List ServerClient) (k : ℕ)
      → First is_free cs k
      → NoneOf (is_called id) cs
      → IsTable cs
      → IsTable (modify cs k (enter socket addr id now))
  IsTable-enter [] k f n t = tt
  IsTable-enter (c ∷ cs) zero f n t =
      (enter-IsSlot c t.0, λ _. NoneOf-new _ cs (cstr-enter socket addr id now c t.0 v) n.1, t.2)
  IsTable-enter (c ∷ cs) (suc k) f n t = (
    t.0,
    λ on. NoneOf-enter c.client_id cs k (ground arith) t.2 (t.1 on),
    IsTable-enter cs k f.1 n.1 t.2,
  )

-- The count of active slots under the three kinds of update.
pub count_active-enter :
    (f : ServerClient → ServerClient) (cs : List ServerClient) (k : ℕ)
    → ((c : ServerClient) → (f c).is_active ≡ true)
    → First is_free cs k
    → count_active (modify cs k f) ≡ count_active cs + 1
unfolding count_active
count_active-enter f [] k on h = absurd h
count_active-enter f (c ∷ cs) zero on h = ground (arith, on c)
count_active-enter f (c ∷ cs) (suc k) on h = ground (arith, count_active-enter f cs k on h.1)

pub count_active-kept :
    (f : ServerClient → ServerClient) (cs : List ServerClient) (k : ℕ)
    → ((c : ServerClient) → (f c).is_active ≡ c.is_active)
    → count_active (modify cs k f) ≡ count_active cs
unfolding count_active
count_active-kept f [] k same = refl
count_active-kept f (c ∷ cs) zero same = ground (arith, same c)
count_active-kept f (c ∷ cs) (suc k) same = ground (arith, count_active-kept f cs k same)

pub count_active-leave :
    (f : ServerClient → ServerClient) (cs : List ServerClient) (k : ℕ) (d : ServerClient)
    → ((c : ServerClient) → (f c).is_active ≡ false)
    → (get_or cs k d).is_active ≡ true
    → d.is_active ≡ false
    → count_active (modify cs k f) + 1 ≡ count_active cs
unfolding count_active
count_active-leave f [] k d off on none = cc
count_active-leave f (c ∷ cs) zero d off on none = ground (arith, off c)
count_active-leave f (c ∷ cs) (suc k) d off on none =
    ground (arith, count_active-leave f cs k d off on none)

-- In a table the search for a name stops at the one active slot that has it.
pub First-called :
    (id : List ℕ) (cs : List ServerClient) (k : ℕ) (c : ServerClient)
    → IsTable cs
    → get_elem? cs k ≡ some c
    → c.is_active ≡ true
    → cstr c.client_id ≡ cstr id
    → First (is_called id) cs k
First-called id [] k c t e on name = cc
First-called id (d ∷ cs) zero c t e on name = ground (arith, str_eq_iff c.client_id id)
First-called id (d ∷ cs) (suc k) c t e on name = (other, First-called id cs k c t.2 e on name)
  where
    clash : (d.is_active ≡ true) → (str_eq d.client_id id ≡ true) → ⊥
    clash was same = ground (
      arith,
      NoneOf-get_elem? (is_called d.client_id) cs k c (t.1 was) e,
      str_eq_iff c.client_id d.client_id,
      str_eq_iff d.client_id id,
    )

    other : is_called id d ≡ false
    other = ground (arith, clash)

-- `find_client_by_id` returns the index of the one active client with this name.
pub find_client_by_id-called :
    (s : Server) (id : List ℕ) (k : ℕ) (c : ServerClient)
    → IsTable s.clients
    → get_elem? s.clients k ≡ some c
    → c.is_active ≡ true
    → cstr c.client_id ≡ cstr id
    → find_client_by_id s id ≡ some k
unfolding find_client_by_id
find_client_by_id-called s id k c t e on name =
    find_index-First _ s.clients k (First-called id s.clients k c t e on name)
