-- ===== src/MessageQueues/Systemv/Table.antt =====
-- The table of clients of lab6/src/server_systemv.c over any sequence of messages.
use cs_os.Prelude.{
  ℕ, ◌≡◌, ◌≢◌, ◌∙◌, true, Option, some, List, [], ◌∷◌, ltb, leb, length, get_elem?,
  find_index-cases, get_elem?-modify_ne, First, First-get_elem?, Option-cases, inl, inr, if-keeps,
  ℤ,
}
use cs_os.Chat.CString.{codes, cstr, str_eq}
use cs_os.MessageQueues.{scan_message, scan_path, after_prefix, msg_size}
use cs_os.MessageQueues.Systemv.{
  Client, Server, Round, going, stopped, overflowed, is_inactive, init, post, message, other,
  dispatch, serve, serve_all, send_others, broadcast_of,
}

module _ (i : ℕ) (c : Client) where
  -- The client has its place.
  abbrev pub Has : Server → Type 0
  Has s = get_elem? s.clients i ≡ some c

  abbrev pub StillHas : Round → Type 0
  StillHas (going s) = Has s
  StillHas (stopped s) = Has s
  StillHas overflowed = Unit

  module _ (on : c.active ≡ true) where
    -- The first free place is another one.
    First-ne : (cs : List Client) (k : ℕ) → First is_inactive cs k → get_elem? cs i ≡ some c → k ≢ i
    unfolding is_inactive
    First-ne cs k f at same =
        let (d, here, off) = First-get_elem? is_inactive cs k f in
        let there : d ≡ c = cc (here, at, same) in cc (off, there, on)

    module _ (queue_of : List ℕ → Option ℕ) where
      init-Has : (s : Server) (text : List ℕ) → Has s → Has (init queue_of s text)
      unfolding init
      init-Has s text h = elim (Option-cases (scan_path text)) [
        | inl e ↦ rw (e, init) h
        | inr (path, e) ↦ elim (find_index-cases is_inactive s.clients) [
          | inl (n, q) ↦ rw (e, q, init) h
          | inr (k, f, q) ↦ elim (Option-cases (queue_of path)) [
            | inl r ↦ rw (e, q, r, init) h
            | inr (cqid, r) ↦
                rw (e, q, r, init)
                  (get_elem?-modify_ne s.clients k i _ (First-ne s.clients k f h) ∙ h)
          ]
        ]
      ]

      post-StillHas : (s : Server) (from : ℤ) (b : List ℕ) → Has s → StillHas (post s from b)
      unfolding post
      post-StillHas s from b h =
          if-keeps StillHas (ltb (length b) msg_size)
            (going (record s { log = send_others 0 from b s.clients s.log })) overflowed h tt

      message-StillHas : (s : Server) (text : List ℕ) → Has s → StillHas (message s text)
      unfolding message
      message-StillHas s text h = elim (Option-cases (scan_message text)) [
        | inl e ↦ rw (e, message) h
        | inr ((from, t), e) ↦ rw (e, message) (post-StillHas s from (broadcast_of from t) h)
      ]

      dispatch-StillHas : (s : Server) (text : List ℕ) → Has s → StillHas (dispatch queue_of s text)
      unfolding dispatch other
      dispatch-StillHas s text h = elim (Option-cases (after_prefix (codes "INIT ") text)) [
        | inr (rest, e) ↦ rw (e, dispatch) (init-Has s rest h)
        | inl e ↦ elim (Option-cases (after_prefix (codes "MSG ") text)) [
          | inr (rest, q) ↦ rw (e, q, dispatch) (message-StillHas s rest h)
          | inl q ↦
              rw (e, q, dispatch)
                (if-keeps StillHas (str_eq text (codes "EXIT")) (stopped s) (going s) h h)
        ]
      ]

      serve-StillHas : (s : Server) (bytes : List ℕ) → Has s → StillHas (serve queue_of s bytes)
      unfolding serve
      serve-StillHas s bytes h =
          if-keeps StillHas (leb msg_size (length bytes)) overflowed
            (dispatch queue_of s (cstr bytes)) tt (dispatch-StillHas s (cstr bytes) h)

      next :
          (more : List (List ℕ)) (r : Round)
          → ((t : Server) → Has t → StillHas (serve_all queue_of t more))
          → StillHas r
          → StillHas (elim r [
            | going t ↦ serve_all queue_of t more
            | stopped t ↦ stopped t
            | overflowed ↦ overflowed
          ])
      next more (going t) rest h = rest t h
      next more (stopped t) rest h = h
      next more overflowed rest h = tt

      -- Whatever messages come, a registered client keeps its place and its queue: no place is ever
      -- given back.
      pub serve_all-StillHas :
          (messages : List (List ℕ)) (s : Server) → Has s → StillHas (serve_all queue_of s messages)
      unfolding serve_all
      serve_all-StillHas [] s h = h
      serve_all-StillHas (bytes ∷ more) s h =
          next more (serve queue_of s bytes) (serve_all-StillHas more) (serve-StillHas s bytes h)
