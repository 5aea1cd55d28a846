-- ===== src/Server/Limit.antt =====
-- Server.cpp: the connections over any number of passes of `ServerThreadFunc`'s loop, their number and
-- their ids.
use dowow_network.Prelude.{
  ℕ, ◌+◌, ◌%◌, ◌<◌, ◌≤◌, ◌≡◌, inl, inr, refl, ◌∙◌, Bool, true, false, not, ◌&&◌, Bool-cases,
  Option-cases, ltb→lt, Option, none, some, List, [], ◌∷◌, ◌++◌, length, length-append, ltb, ◌==◌,
  if◌then◌else◌, arith, Outcome, done, ◌>>=◌,
}
use dowow_network.Prelude.Int.{ℤ, pos, negsuc}
use dowow_network.Prelude.Bytes.{u32_mod}
use dowow_network.Connection.Api.{SocketDomain, of_fd}
use dowow_network.Server.{
  Server, Accepted, Revents, accepts_new, closed, remaining, accept_one, tell_disconnected,
  add_client, round,
}

-- No more connections than the limit, where there is one.
abbrev pub IsWithin : ℤ → ℕ → Type 0
IsWithin (negsuc n) amount = Unit
IsWithin (pos n) amount = amount ≤ n

-- The ids grow along the list, from `low` on and below `high`.
abbrev pub Numbered : ℕ → List Accepted → ℕ → Type 0
Numbered low [] high = low ≤ high
Numbered low (c ∷ cs) high = (low ≤ c.id) × Numbered (c.id + 1) cs high

-- The handlers leave these fields of the server alone.
pub record Keeps (s t : Server) : Type 0 where
  pub list : t.connections ≡ s.connections
  pub limit : t.max_connections ≡ s.max_connections
  pub handler : t.disconnected_handler ≡ s.disconnected_handler

abbrev pub AreTame : (ℕ → Server → Accepted → Server × Accepted) → Type 0
AreTame call = (h : ℕ) (s : Server) (c : Accepted) → Keeps s ((call h s c).0)

-- The limit is kept, the ids grow and lie below the next one, and there is a handler for
-- disconnections.
pub record IsSound (free_id : ℕ) (s : Server) : Type 0 where
  pub within : IsWithin s.max_connections (length s.connections)
  pub numbered : Numbered 0 s.connections free_id
  pub handled : (h : ℕ) × (s.disconnected_handler ≡ some h)

length-remaining_le : (bs : List Bool) (cs : List Accepted) → length (remaining bs cs) ≤ length cs
unfolding remaining
length-remaining_le [] cs = omega arith
length-remaining_le (b ∷ bs) [] = omega arith
length-remaining_le (true ∷ bs) (c ∷ cs) = omega (arith, length-remaining_le bs cs)
length-remaining_le (false ∷ bs) (c ∷ cs) = omega (arith, length-remaining_le bs cs)

Numbered-weaken :
    (low : ℕ) (cs : List Accepted) (least high : ℕ)
    → low ≤ least
    → Numbered least cs high
    → Numbered low cs high
Numbered-weaken low [] least high h n = omega arith
Numbered-weaken low (c ∷ cs) least high h n = (omega (arith, n.0), n.1)

Numbered-remaining :
    (bs : List Bool) (cs : List Accepted) (low high : ℕ)
    → Numbered low cs high
    → Numbered low (remaining bs cs) high
unfolding remaining
Numbered-remaining [] cs low high n = n
Numbered-remaining (b ∷ bs) [] low high n = n
Numbered-remaining (true ∷ bs) (c ∷ cs) low high n =
    Numbered-remaining bs cs low high
      (Numbered-weaken low cs (c.id + 1) high (omega (arith, n.0)) n.1)
Numbered-remaining (false ∷ bs) (c ∷ cs) low high n =
    (n.0, Numbered-remaining bs cs (c.id + 1) high n.1)

Numbered-snoc :
    (cs : List Accepted) (c : Accepted) (low : ℕ)
    → Numbered low cs c.id
    → Numbered low (cs ++ c ∷ []) (c.id + 1)
Numbered-snoc [] c low n = (n, omega arith)
Numbered-snoc (d ∷ cs) c low n = (n.0, Numbered-snoc cs c (d.id + 1) n.1)

module _ (call : ℕ → Server → Accepted → Server × Accepted) where
  -- Passes of the loop until one ends it: the next id and the object.
  unfoldable pub rounds : List (Revents × Option SocketDomain) → ℕ → Server → Outcome (ℕ × Server)
  unfolding round
  rounds [] free_id s = done (free_id, s)
  rounds ((ev, accepted) ∷ evs) free_id s = round call ev accepted free_id s >>= λ r.
      let more = rounds evs r.1 r.2 in if r.0 then more else done (r.1, r.2)

module _ (call : ℕ → Server → Accepted → Server × Accepted) (tame : AreTame call) where
  tell_disconnected_lem :
      (cs : List Accepted) (s : Server) (h : ℕ)
      → s.disconnected_handler ≡ some h
      → (t : Server) × (tell_disconnected call cs s ≡ done t) × Keeps s t
  unfolding tell_disconnected
  tell_disconnected_lem [] s h e = (s, refl, record { list = refl; limit = refl; handler = refl })
  tell_disconnected_lem (c ∷ cs) s h e =
      let once = tame h s c in
      let (t, ran, more) = tell_disconnected_lem cs ((call h s c).0) h (once.handler ∙ e) in
      (
        t,
        rw (e, tell_disconnected) ran,
        record {
          list = more.list ∙ once.list;
          limit = more.limit ∙ once.limit;
          handler = more.handler ∙ once.handler;
        },
      )

  added-IsSound :
      (s after : Server) (c : Accepted) (free_id : ℕ)
      → IsSound free_id s
      → IsWithin s.max_connections (length s.connections + 1)
      → Keeps s after
      → IsSound
          (free_id + 1)
          (record after { connections = after.connections ++ record c { id = free_id } ∷ [] })
  added-IsSound s after c free_id sound room k = record {
    within =
        rw (k.limit, k.list, length-append s.connections (record c { id = free_id } ∷ [])) room;
    numbered = rw k.list (Numbered-snoc s.connections (record c { id = free_id }) 0 sound.numbered);
    handled = ((sound.handled).0, k.handler ∙ (sound.handled).1);
  }

  accept_one_lem :
      (domain : SocketDomain) (s : Server)
      → (c : Accepted) × (after : Server) × (accept_one call (some domain) s ≡ (some c, after))
        × Keeps s after
  unfolding accept_one
  accept_one_lem domain s =
      let made : Accepted = record { id = 0; tag = []; connection = of_fd domain } in
      elim (Option-cases s.connected_handler) [
        | inl e ↦ (made, s, ground arith, record { list = refl; limit = refl; handler = refl })
        | inr (h, e) ↦ ((call h s made).1, (call h s made).0, ground arith, tame h s made)
      ]

  -- A result that is sound, with a free id at most one more.
  abbrev IsNext : ℕ → ℕ × Server → Type 0
  IsNext free_id r = IsSound r.0 r.1 × (r.0 ≤ free_id + 1)

  add_client-IsNext :
      (accepted : Option SocketDomain) (free_id : ℕ) (s : Server)
      → IsSound free_id s
      → IsWithin s.max_connections (length s.connections + 1)
      → free_id + 1 < u32_mod
      → IsNext free_id (add_client call accepted free_id s)
  unfolding add_client
  add_client-IsNext none free_id s sound room wide = unfold accept_one in (sound, omega arith)
  add_client-IsNext (some domain) free_id s sound room wide =
      let (c, after, made, k) = accept_one_lem domain s in
      let next : (free_id + 1) % u32_mod ≡ free_id + 1 = omega arith in
      let added : add_client call (some domain) free_id s ≡ (
        free_id + 1,
        record after { connections = after.connections ++ record c { id = free_id } ∷ [] },
      ) =
        ground (arith, made, next) in
      rw added (added-IsSound s after c free_id sound room k, omega arith)

  -- The server without the closed connections.
  left-IsSound :
      (bs : List Bool) (free_id : ℕ) (s t : Server)
      → IsSound free_id s
      → Keeps s t
      → IsSound free_id (record t { connections = remaining bs t.connections })
  left-IsSound bs free_id s t sound k = record {
    within = rw (k.limit, k.list) (fewer s.max_connections sound.within);
    numbered = rw k.list (Numbered-remaining bs s.connections 0 free_id sound.numbered);
    handled = ((sound.handled).0, k.handler ∙ (sound.handled).1);
  }
    where
      fewer :
          (m : ℤ)
          → IsWithin m (length s.connections)
          → IsWithin m (length (remaining bs s.connections))
      fewer (negsuc n) w = tt
      fewer (pos n) w = omega (arith, length-remaining_le bs s.connections)

  left_room :
      (bs : List Bool) (s t : Server)
      → Keeps s t
      → accepts_new s ≡ true
      → IsWithin t.max_connections (length (remaining bs t.connections) + 1)
  unfolding accepts_new
  left_room bs s t k open' = rw (k.limit, k.list) (room s.max_connections s.connections open')
    where
      room :
          (m : ℤ) (cs : List Accepted)
          → (elim m [ negsuc n ↦ true | pos n ↦ ltb (length cs) n ]) ≡ true
          → IsWithin m (length (remaining bs cs) + 1)
      room (negsuc n) cs e = tt
      room (pos n) cs e = omega (arith, length-remaining_le bs cs, ltb→lt (length cs) n e)

  -- A pass of the loop returns, with a sound server and a next id of at most one more.
  round_lem :
      (ev : Revents) (accepted : Option SocketDomain) (free_id : ℕ) (s : Server)
      → IsSound free_id s
      → free_id + 1 < u32_mod
      → (r : Bool × ℕ × Server) × (round call ev accepted free_id s ≡ done r)
        × IsNext free_id (r.1, r.2)
  unfolding round
  round_lem ev accepted free_id s sound wide =
      let (t, told, k) =
        tell_disconnected_lem (closed ev.stopped s.connections) s (sound.handled).0
          (sound.handled).1 in
      let left : Server = record t { connections = remaining ev.stopped t.connections } in
      let sound_left = left-IsSound ev.stopped free_id s t sound k in
      elim (Bool-cases ev.to_stop) [
        | inl stop ↦ ((false, free_id, s), rw (stop, round) refl, (sound, omega arith))
        | inr on ↦ elim (Bool-cases (ev.incoming && accepts_new s)) [
          | inl new ↦
              let r : ℕ × Server = add_client call accepted free_id left in
              (
                (true, r.0, r.1),
                rw (on, told, new) refl,
                add_client-IsNext accepted free_id left sound_left
                    (left_room ev.stopped s t k (ground arith)) wide,
              )
          | inr none_new ↦ (
            (not (length (closed ev.stopped s.connections) == 0), free_id, left),
            rw (on, told, none_new) refl,
            (sound_left, omega arith),
          )
        ]
      ]

  -- Whatever `poll` and `accept` answer, and where handlers leave the server's list, limit and handler
  -- of disconnections alone and that handler is set, any number of passes of the loop returns, below
  -- 2^32 ids: then there are no more connections than a limit that is not negative, and their ids grow
  -- along the list and lie below the next one, so that no two are equal.
  pub rounds-IsSound :
      (evs : List (Revents × Option SocketDomain)) (free_id : ℕ) (s : Server)
      → IsSound free_id s
      → free_id + length evs < u32_mod
      → (r : ℕ × Server) × (rounds call evs free_id s ≡ done r) × IsSound r.0 r.1
  unfolding rounds
  rounds-IsSound [] free_id s sound wide = ((free_id, s), refl, sound)
  rounds-IsSound ((ev, accepted) ∷ evs) free_id s sound wide =
      let (r, ran, next) = round_lem ev accepted free_id s sound (omega arith) in
      let (q, more, last) = rounds-IsSound evs r.1 r.2 next.0 (omega (arith, next.1)) in
      elim (Bool-cases r.0) [
        | inl on ↦ (q, rw (ran, on) more, last)
        | inr over ↦ ((r.1, r.2), rw (ran, over) refl, next.0)
      ]
