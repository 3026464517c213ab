-- ===== src/Tcp/Timeout.antt =====
-- `keepalive_monitor` of lab10/src/server.c gets rid of a client that stays silent.
use cs_os.Prelude.{
  ℕ, suc, ◌+◌, ◌-◌, ◌≤◌, ◌<◌, ◌≡◌, ◌≢◌, ◌⊎◌, inl, inr, refl, ap, subst, ◌∙◌, true, false, some,
  List, [], ◌∷◌, ℤ, arith, leb, ltb, if◌then◌else◌, get_elem?, get_elem?-lt, get_or_of_get_elem?,
  modify, for_range-once, if-keeps, if-cases, length, dec, get_elem?-modify_ne,
  get_elem?-modify_self, Bool-cases,
}
use cs_os.Chat.Message.{create_message, msg_alive}
use cs_os.Chat.Server.Handlers.{server_name}
use cs_os.Chat.Server.{
  ServerClient, max_clients, max_inactive_count, keepalive_interval, client_at, no_client, vacate,
}
use cs_os.Chat.Server.Keepalive.{has_failed, miss}
use cs_os.Tcp.Server.{World, Log, Network, send_to, remove_client, close_fd}
use cs_os.Tcp.Server.Keepalive.{ask, check_client, sweep, keepalive_monitor}

-- Slot `k` holds a client of this kind, and the server runs.
record Holds (k : ℕ) (Kind : ServerClient → Type 0) (w : World) : Type 0 where
  holder : (c : ServerClient) × (get_elem? w.clients k ≡ some c) × Kind c
  on : w.is_running ≡ true

-- Last heard then, and found silent `n` times, or no longer active.
abbrev pub IsFading : ℕ → ℕ → ServerClient → Type 0
IsFading last_seen n c =
    (c.is_active ≡ false)
    ⊎ ((c.last_seen ≡ last_seen) × (n ≤ c.inactive_count) × (n < max_inactive_count))

remove_client-Holds :
    (Kind : ServerClient → Type 0) (k i : ℕ) (w : World)
    → i ≢ k
    → Holds k Kind w
    → Holds k Kind (remove_client w i)
unfolding remove_client
remove_client-Holds Kind k i w ne h =
    if-keeps (Holds k Kind) (leb max_clients i) w
      (if (client_at w.server i).is_active then gone else w) h
      (if-keeps (Holds k Kind) (client_at w.server i).is_active gone w
        (let (c, at, kind) = h.holder in
          record {
            holder = (c, get_elem?-modify_ne w.clients i k vacate ne ∙ at, kind);
            on = h.on;
          })
        h)
  where
    gone : World
    gone = record {
      server = record w.server {
        clients = modify w.clients i vacate;
        client_count = dec w.client_count;
      };
      log = close_fd (client_at w.server i).socket_fd w.log;
    }

-- A removed slot is not active.
remove_client-gone :
    (k t n : ℕ) (w : World)
    → k < max_clients
    → Holds k (λ c. c.is_active ≡ true) w
    → Holds k (IsFading t n) (remove_client w k)
unfolding remove_client
remove_client-gone k t n w l h =
    let (c, at, active) = h.holder in
    let inside : leb max_clients k ≡ false = ground arith in
    rw (inside, get_or_of_get_elem? w.clients k c no_client at, active, remove_client)
      (record {
        holder =
            (vacate c, get_elem?-modify_self w.clients k vacate c at, inl (unfold vacate in refl));
        on = h.on;
      })

module _ (net : Network) (now : ℕ) where
  ask-Holds :
      (Kind : ServerClient → Type 0) (k i : ℕ) (w : World)
      → i ≢ k
      → Holds k Kind w
      → Holds k Kind (ask net now w i)
  unfolding ask
  ask-Holds Kind k i w ne h =
      if-keeps (Holds k Kind) (leb max_inactive_count (client_at w.server i).inactive_count) _ _
        (remove_client-Holds Kind k i w ne h)
        (if-keeps (Holds k Kind) (has_failed result.0) _ _
          (remove_client-Holds Kind k i asked ne asked-Holds) asked-Holds)
    where
      result : ℤ × Log
      result =
          send_to net (client_at w.server i).socket_fd
            (create_message msg_alive (some server_name) (some (client_at w.server i).client_id)
              (some []) now)
            w.log

      asked : World
      asked = record w { log = result.1 }

      asked-Holds : Holds k Kind asked
      asked-Holds = record { holder = h.holder; on = h.on }

  -- The other slots' rounds.
  other-Holds :
      (Kind : ServerClient → Type 0) (k i : ℕ) (w : World)
      → i ≢ k
      → Holds k Kind w
      → Holds k Kind (check_client net now i w)
  unfolding check_client
  other-Holds Kind k i w ne h =
      let (c, at, kind) = h.holder in
      if-keeps (Holds k Kind) _ _ _ h (
        if-keeps (Holds k Kind) _ _ _
          (ask-Holds Kind k i _ ne (record {
            holder = (c, get_elem?-modify_ne w.clients i k miss ne ∙ at, kind);
            on = h.on;
          }))
          h)

  -- A client that has just been found silent once more is asked, or removed.
  ask-own :
      (k t n : ℕ) (w : World)
      → k < max_clients
      → Holds k (λ c. (c.is_active ≡ true) × (c.last_seen ≡ t) × (n ≤ c.inactive_count)) w
      → Holds k (IsFading t n) (ask net now w k)
  unfolding ask
  ask-own k t n w l h =
      if-cases (Holds k (IsFading t n))
        (leb max_inactive_count (client_at w.server k).inactive_count) _ _
        (λ many. remove_client-gone k t n w l active)
        (λ few.
          if-keeps (Holds k (IsFading t n)) (has_failed result.0) _ _
            (remove_client-gone k t n asked l (record { holder = active.holder; on = active.on }))
            (record { holder = (c, at, inr (kind.1, kind.2, short few)); on = h.on }))
    where
      c : ServerClient
      c = h.holder.0

      at : get_elem? w.clients k ≡ some c
      at = h.holder.1

      kind : (c.is_active ≡ true) × (c.last_seen ≡ t) × (n ≤ c.inactive_count)
      kind = h.holder.2

      here : client_at w.server k ≡ c
      here = get_or_of_get_elem? w.clients k c no_client at

      short :
          leb max_inactive_count (client_at w.server k).inactive_count ≡ false
          → n < max_inactive_count
      short few = ground (arith, ap (λ (x : ServerClient). x.inactive_count) here, kind.2)

      active : Holds k (λ c. c.is_active ≡ true) w
      active = record { holder = (c, at, kind.0); on = h.on }

      result : ℤ × Log
      result =
          send_to net (client_at w.server k).socket_fd
            (create_message msg_alive (some server_name) (some (client_at w.server k).client_id)
              (some []) now)
            w.log

      asked : World
      asked = record w { log = result.1 }

  -- The round of the silent client.
  own-Holds :
      (k t n : ℕ) (w : World)
      → k < max_clients
      → t + keepalive_interval < now
      → Holds k (IsFading t n) w
      → Holds k (IsFading t (n + 1)) (check_client net now k w)
  unfolding check_client miss
  own-Holds k t n w l late h = elim (Bool-cases c.is_active) [
    | inl active ↦ elim h.holder.2 [
      | inl off ↦ absurd (cc (active, off))
      | inr (seen, many, few) ↦
          let silent : ltb keepalive_interval (now - c.last_seen) ≡ true = ground arith in
          rw (here, active, silent, check_client)
            (ask-own k t (n + 1) _ l (record {
              holder = (
                miss c,
                get_elem?-modify_self w.clients k miss c h.holder.1,
                (active, seen, omega (arith, many)),
              );
              on = h.on;
            }))
    ]
    | inr off ↦
        rw (here, off, check_client) (record { holder = (c, h.holder.1, inl off); on = h.on })
  ]
    where
      c : ServerClient
      c = h.holder.0

      here : client_at w.server k ≡ c
      here = get_or_of_get_elem? w.clients k c no_client h.holder.1

  sweep-Holds :
      (k t n : ℕ) (w : World)
      → k < max_clients
      → t + keepalive_interval < now
      → Holds k (IsFading t n) w
      → Holds k (IsFading t (n + 1)) (sweep net now w)
  unfolding sweep
  sweep-Holds k t n w l late h =
      for_range-once (Holds k (IsFading t n)) (Holds k (IsFading t (n + 1))) (check_client net now)
        k (λ i v. other-Holds (IsFading t n) k i v) (λ v. own-Holds k t n v l late)
        (λ i v. other-Holds (IsFading t (n + 1)) k i v) 0 max_clients w (omega arith)
        (omega (arith, l)) h

-- Every wake of the monitor comes more than 30 seconds after this time.
abbrev pub AllLater : ℕ → List ℕ → Type 0
AllLater t [] = Unit
AllLater t (now ∷ wakes) = (t + keepalive_interval < now) × AllLater t wakes

wakes-Holds :
    (net : Network) (k t n : ℕ) (wakes : List ℕ) (w : World)
    → k < max_clients
    → AllLater t wakes
    → Holds k (IsFading t n) w
    → Holds k (IsFading t (n + length wakes)) (keepalive_monitor net wakes w)
unfolding keepalive_monitor
wakes-Holds net k t n [] w l late h = subst (λ m. Holds k (IsFading t m) w) (the_same n) h
  where
    the_same : (n : ℕ) → n ≡ n + 0
    the_same n = omega arith
wakes-Holds net k t n (now ∷ wakes) w l late h =
    subst (λ m. Holds k (IsFading t m) (keepalive_monitor net (now ∷ wakes) w))
      (the_same n (length wakes))
      (wakes-Holds net k t (n + 1) wakes _ l late.1 (
        if-cases (Holds k (IsFading t (n + 1))) w.is_running _ _
          (λ on. sweep-Holds net now k t n w l late.0 h) (λ off. absurd (cc (h.on, off)))))
  where
    the_same : (n m : ℕ) → n + 1 + m ≡ n + suc m
    the_same n m = omega arith

-- In a running server, where a client is in slot `k`, and the monitor wakes three times or more,
-- each time more than 30 seconds after the client was last heard, with nothing heard in between,
-- the slot is free afterwards.
pub keepalive_monitor-silent :
    (net : Network) (k : ℕ) (c : ServerClient) (wakes : List ℕ) (w : World)
    → w.is_running ≡ true
    → length w.clients ≡ max_clients
    → get_elem? w.clients k ≡ some c
    → AllLater c.last_seen wakes
    → max_inactive_count ≤ length wakes
    → (client_at (keepalive_monitor net wakes w).server k).is_active ≡ false
keepalive_monitor-silent net k c wakes w on size at late enough =
    let l : k < max_clients = omega (arith, get_elem?-lt w.clients k c at, size) in
    let h =
      wakes-Holds net k c.last_seen 0 wakes w l late
        (record { holder = (c, at, inr (refl, omega arith, omega arith)); on = on }) in
    let (d, here, kind) = h.holder in
    elim kind [
      | inl off ↦
          ap (λ (x : ServerClient). x.is_active) (get_or_of_get_elem? _ k d no_client here) ∙ off
      | inr (_, _, few) ↦ absurd (omega (arith, few, enough))
    ]
