-- ===== src/Chat/Server/Listing.antt =====
-- The text of the client list (lab11/src/server.c), which is put together in an array of 1024 bytes.
use cs_os.Prelude.{
  ℕ, ◌-◌, ◌<◌, ◌≡◌, refl, sym, ◌∙◌, ap, Bool, true, false, ◌&&◌, List, [], ◌∷◌, ◌++◌, arith,
  if◌then◌else◌, length, take, append_assoc, append-nil, inl, inr, Bool-cases, take-take-append,
  length-take,
}
use cs_os.Chat.CString.{codes, cstr, strlen, zeros, safe_strcat, safe_strcpy}
use cs_os.Chat.CString.Laws.{
  cstr-safe_strcat, cstr-safe_strcpy, length-safe_strcat, length-safe_strcpy, length-zeros,
}
use cs_os.Chat.Message.{max_message_size}
use cs_os.Chat.Server.{ServerClient}
use cs_os.Chat.Server.Handlers.{list_clients, client_list}

-- The specification: the names of the active clients, in the order of the table, with a comma and a
-- space between any two.
unfoldable pub names : List ServerClient → List (List ℕ)
names [] = []
names (c ∷ cs) = if c.is_active then cstr c.client_id ∷ names cs else names cs

unfoldable pub commas : List (List ℕ) → List ℕ
commas [] = []
commas (n ∷ ns) = codes ", " ++ (n ++ commas ns)

unfoldable pub join : List (List ℕ) → List ℕ
unfolding commas
join [] = []
join (n ∷ ns) = n ++ commas ns

unfoldable pub announcement : List (List ℕ) → List ℕ
unfolding join
announcement [] = codes "No clients connected"
announcement (n ∷ ns) = codes "Connected clients: " ++ join (n ∷ ns)

no_names : List (List ℕ) → Bool
no_names [] = true
no_names (n ∷ ns) = false

and-true : (b : Bool) → (b && true) ≡ b
and-true true = refl
and-true false = refl

and-false : (b : Bool) → (b && false) ≡ false
and-false true = refl
and-false false = refl

-- What is still to be written, after no name or after some.
rest : Bool → List (List ℕ) → List ℕ
unfolding join
rest true ns = join ns
rest false ns = commas ns

-- An array whose text is `t`, cut to the room.
record Wrote (array t : List ℕ) : Type 0 where
  size : length array ≡ max_message_size
  text : cstr array ≡ take (max_message_size - 1) t

Wrote-strlen : (array t : List ℕ) → Wrote array t → strlen array < max_message_size
unfolding strlen
Wrote-strlen array t w = omega (arith, ap length w.text, length-take (max_message_size - 1) t)

Wrote-safe_strcat :
    (array t s : List ℕ)
    → Wrote array t
    → Wrote (safe_strcat array s max_message_size) (t ++ cstr s)
Wrote-safe_strcat array t s w = record {
  size = length-safe_strcat array s max_message_size ∙ w.size;
  text =
      cstr-safe_strcat array s max_message_size (Wrote-strlen array t w) (omega (arith, w.size))
      ∙ ap (λ u. take 1023 (u ++ cstr s)) w.text
      ∙ take-take-append 1023 t (cstr s);
}

Wrote-first :
    (t : List ℕ) (array : List ℕ)
    → length array ≡ max_message_size
    → Wrote (safe_strcpy array t max_message_size) (cstr t)
Wrote-first t array e = record {
  size = length-safe_strcpy array t max_message_size ∙ e;
  text = cstr-safe_strcpy array t max_message_size (omega arith) (omega arith);
}

-- The name of one more client, after a comma unless it is the first.
Wrote-name :
    (first : Bool) (array t : List ℕ) (name : List ℕ) (ns : List (List ℕ))
    → Wrote array t
    → (t' : List ℕ) × Wrote
        (safe_strcat
          (if first then array else safe_strcat array (codes ", ") max_message_size)
          name
          max_message_size)
        t'
      × (t' ++ commas ns ≡ t ++ rest first (cstr name ∷ ns))
unfolding rest
Wrote-name true array t name ns w =
    (t ++ cstr name, Wrote-safe_strcat array t name w, append_assoc t (cstr name) (commas ns))
Wrote-name false array t name ns w = (
  (t ++ codes ", ") ++ cstr name,
  Wrote-safe_strcat _ (t ++ codes ", ") name
      (unfold cstr in Wrote-safe_strcat array t (codes ", ") w),
  append_assoc (t ++ codes ", ") (cstr name) (commas ns)
      ∙ append_assoc t (codes ", ") (cstr name ++ commas ns),
)

-- The array after one more name.
abbrev with_name : Bool → List ℕ → List ℕ → List ℕ
with_name first array name =
    safe_strcat (if first then array else safe_strcat array (codes ", ") max_message_size) name
      max_message_size

list_clients-active :
    (c : ServerClient) (cs : List ServerClient) (first : Bool) (array : List ℕ)
    → c.is_active ≡ true
    → (list_clients (c ∷ cs) first array
        ≡ list_clients cs false (with_name first array c.client_id))
      × (names (c ∷ cs) ≡ cstr c.client_id ∷ names cs)
unfolding list_clients names
list_clients-active c cs true array on = ground arith
list_clients-active c cs false array on = ground arith

list_clients-inactive :
    (c : ServerClient) (cs : List ServerClient) (first : Bool) (array : List ℕ)
    → c.is_active ≡ false
    → (list_clients (c ∷ cs) first array ≡ list_clients cs first array)
      × (names (c ∷ cs) ≡ names cs)
unfolding list_clients names
list_clients-inactive c cs true array off = ground arith
list_clients-inactive c cs false array off = ground arith

-- What the loop leaves, begun at a text `t`: all the names that are still to be written, and
-- whether there was none.
record Listed (first : Bool) (t : List ℕ) (ns : List (List ℕ)) (out : Bool × List ℕ) : Type 0 where
  wrote : Wrote out.1 (t ++ rest first ns)
  none_met : out.0 ≡ (first && no_names ns)

list_clients-Listed :
    (cs : List ServerClient) (first : Bool) (array t : List ℕ)
    → Wrote array t
    → Listed first t (names cs) (list_clients cs first array)
list_clients-Listed [] true array t w =
    unfold list_clients names rest no_names in
    record { wrote = rw (append-nil t) w; none_met = refl }
list_clients-Listed [] false array t w =
    unfold list_clients names rest no_names in
    record { wrote = rw (append-nil t) w; none_met = refl }
list_clients-Listed (c ∷ cs) first array t w = elim (Bool-cases c.is_active) [
  | inr off ↦
      let (e, n) = list_clients-inactive c cs first array off in
      rw (e, n) (list_clients-Listed cs first array t w)
  | inl on ↦
      let (e, n) = list_clients-active c cs first array on in
      let (t', w', u) = Wrote-name first array t c.client_id (names cs) w in
      rw (e, n) (go_on u (list_clients-Listed cs false (with_name first array c.client_id) t' w'))
]
  where
    go_on :
        {out : Bool × List ℕ} {t' : List ℕ}
        → t' ++ commas (names cs) ≡ t ++ rest first (cstr c.client_id ∷ names cs)
        → Listed false t' (names cs) out
        → Listed first t (cstr c.client_id ∷ names cs) out
    go_on u l = record {
      wrote = rw (← u) (unfold rest in l.wrote);
      none_met = l.none_met ∙ unfold no_names in sym (and-false first);
    }

finish :
    (ns : List (List ℕ)) (out : Bool × List ℕ)
    → Listed true (codes "Connected clients: ") ns out
    → cstr
        (if out.0 then safe_strcpy out.1 (codes "No clients connected") max_message_size else out.1)
      ≡ take (max_message_size - 1) (announcement ns)
unfolding announcement cstr rest no_names
finish [] out l = rw l.none_met (Wrote-first (codes "No clients connected") out.1 l.wrote.size).text
finish (n ∷ ns) out l = rw l.none_met l.wrote.text

-- The text of the client list is the announcement of the names of the active clients, cut to the
-- 1023 bytes that a message can carry.
pub client_list_lem :
    (cs : List ServerClient)
    → cstr (client_list cs) ≡ take (max_message_size - 1) (announcement (names cs))
unfolding client_list
client_list_lem cs = finish (names cs) _ (list_clients-Listed cs true _ _ heading)
  where
    heading :
        Wrote
          (safe_strcpy (zeros max_message_size) (codes "Connected clients: ") max_message_size)
          (codes "Connected clients: ")
    heading =
        unfold cstr in
        Wrote-first (codes "Connected clients: ") (zeros max_message_size)
          (length-zeros max_message_size)
