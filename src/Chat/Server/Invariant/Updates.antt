-- ===== src/Chat/Server/Invariant/Updates.antt =====
-- The invariant, and the changes of one slot that keep it (lab11/src/server.c).
use cs_os.Prelude.{
  ℕ, ◌≡◌, refl, ◌∙◌, true, false, List, arith, length, length-modify, modify, NoneOf, pos,
  find_index-cases, inl, inr, Bool-cases, leb, Option, inc, dec, First,
}
use cs_os.Chat.CString.{cstr}
use cs_os.Chat.CString.Laws.{length-zeros}
use cs_os.Chat.Message.{max_client_name}
use cs_os.Chat.Message.ClientId.{IsClientId}
use cs_os.Chat.Protocol.{SockAddr}
use cs_os.Chat.Server.{
  ServerClient, Server, World, max_clients, client_at, no_client, is_called, is_free, enter,
  add_client_udp, vacate, remove_client,
}
use cs_os.Chat.Server.Handlers.{touch}
use cs_os.Chat.Server.Keepalive.{miss}
use cs_os.Chat.Server.Lifecycle.{dismiss}
use cs_os.Chat.Server.Table.{
  IsTable, count_active, IsQuiet, IsTable-quiet, IsTable-enter, count_active-enter,
  count_active-kept, count_active-leave,
}

-- 255 slots, no two active ones under one name, every active one under a name of the documented
-- form; while the server runs, `client_count` is the number of active slots.
pub record IsValid (s : Server) : Type 0 where
  pub slots : length s.clients ≡ max_clients
  pub table : IsTable s.clients
  pub counted : s.is_running ≡ true → s.client_count ≡ pos (count_active s.clients)

touch-IsQuiet : (addr : SockAddr) (now : ℕ) → IsQuiet (touch addr now)
unfolding touch
touch-IsQuiet addr now = record {
  slot = λ c s. record { name_size = s.name_size; named = s.named };
  same = λ c h. (h, refl);
}

pub miss-IsQuiet : IsQuiet miss
unfolding miss
miss-IsQuiet = record {
  slot = λ c s. record { name_size = s.name_size; named = s.named };
  same = λ c h. (h, refl);
}

vacate-IsQuiet : IsQuiet vacate
unfolding vacate
vacate-IsQuiet = record {
  slot = λ c s. record { name_size = length-zeros max_client_name; named = λ h. cc };
  same = λ c h. cc;
}

dismiss-IsQuiet : IsQuiet dismiss
unfolding dismiss
dismiss-IsQuiet = record {
  slot = λ c s. record { name_size = s.name_size; named = λ h. cc };
  same = λ c h. cc;
}

-- A quiet update that switches no slot.
pub kept-IsValid :
    (f : ServerClient → ServerClient) (s : Server) (i : ℕ)
    → IsQuiet f
    → ((c : ServerClient) → (f c).is_active ≡ c.is_active)
    → IsValid s
    → IsValid (record s { clients = modify s.clients i f })
kept-IsValid f s i q same v = record {
  slots = length-modify s.clients i f ∙ v.slots;
  table = IsTable-quiet f s.clients i q v.table;
  counted = λ on. rw (count_active-kept f s.clients i same) (v.counted on);
}

pub touch-IsValid :
    (addr : SockAddr) (now : ℕ) (s : Server) (i : ℕ)
    → IsValid s
    → IsValid (record s { clients = modify s.clients i (touch addr now) })
touch-IsValid addr now s i v =
    kept-IsValid (touch addr now) s i (touch-IsQuiet addr now) (λ c. unfold touch in refl) v

pub miss-IsValid :
    (s : Server) (i : ℕ) → IsValid s → IsValid (record s { clients = modify s.clients i miss })
miss-IsValid s i v = kept-IsValid miss s i miss-IsQuiet (λ c. unfold miss in refl) v

-- Once the server has stopped, a client may be dismissed.
pub dismiss-IsValid :
    (s : Server) (i : ℕ)
    → s.is_running ≡ false
    → IsValid s
    → IsValid (record s { clients = modify s.clients i dismiss })
dismiss-IsValid s i off v = record {
  slots = length-modify s.clients i dismiss ∙ v.slots;
  table = IsTable-quiet dismiss s.clients i dismiss-IsQuiet v.table;
  counted = λ on. cc;
}

-- A new name of the accepted form that the table lacks goes into the first free slot.
pub enter-IsValid :
    (socket : Option ℕ) (addr : SockAddr) (id : List ℕ) (now : ℕ) (s : Server) (k : ℕ)
    → IsClientId (cstr id)
    → NoneOf (is_called id) s.clients
    → First is_free s.clients k
    → IsValid s
    → IsValid (record s {
      clients = modify s.clients k (enter socket addr id now);
      client_count = inc s.client_count;
    })
enter-IsValid socket addr id now s k w n f v = record {
  slots = length-modify s.clients k _ ∙ v.slots;
  table = IsTable-enter socket addr id now w s.clients k f n v.table;
  counted = λ on.
      rw
        (
          count_active-enter (enter socket addr id now) s.clients k (λ c. unfold enter in refl) f,
          v.counted on,
        )
        refl;
}

-- An active slot is emptied.
pub vacate-IsValid :
    (s : Server) (i : ℕ)
    → (client_at s i).is_active ≡ true
    → IsValid s
    → IsValid (record s { clients = modify s.clients i vacate; client_count = dec s.client_count })
vacate-IsValid s i on v = record {
  slots = length-modify s.clients i vacate ∙ v.slots;
  table = IsTable-quiet vacate s.clients i vacate-IsQuiet v.table;
  counted = λ run. ground (
    arith,
    v.counted run,
    count_active-leave vacate s.clients i no_client (λ c. unfold vacate in refl) on refl,
  );
}

-- A new name of the accepted form that the table lacks is entered, or nothing is changed.
pub add_client_udp-IsValid :
    (now : ℕ) (s : Server) (addr : SockAddr) (id : List ℕ)
    → IsClientId (cstr id)
    → NoneOf (is_called id) s.clients
    → IsValid s
    → IsValid (add_client_udp now s addr id).1
unfolding add_client_udp
add_client_udp-IsValid now s addr id w n v = elim (find_index-cases is_free s.clients) [
  | inl (_, e) ↦ rw (e, add_client_udp) v
  | inr (k, f, e) ↦ rw (e, add_client_udp) (enter-IsValid s.server_socket addr id now s k w n f v)
]

-- Removal keeps the invariant at every index.
pub remove_client-IsValid :
    (w : World) (i : ℕ) → IsValid w.server → IsValid (remove_client w i).server
unfolding remove_client
remove_client-IsValid w i v = elim (Bool-cases (leb max_clients i)) [
  | inl e ↦ rw (e, remove_client) v
  | inr e ↦ elim (Bool-cases (client_at w.server i).is_active) [
    | inr off ↦ rw (e, off, remove_client) v
    | inl on ↦ rw (e, on, remove_client) (vacate-IsValid w.server i on v)
  ]
]
