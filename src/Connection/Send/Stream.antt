-- ===== src/Connection/Send/Stream.antt =====
-- What goes to the socket over any number of calls of `Send`.
use dowow_network.Prelude.{
  ℕ, ◌+◌, ◌-◌, ◌%◌, ◌≤◌, ◌≡◌, refl, ap, subst, ◌∙◌, Bool, true, false, Bool-cases, Option-cases,
  inl, inr, Option, some, List, [], ◌∷◌, ◌++◌, All, length, take, drop, arith, Outcome, done, ◌>>=◌,
  ltb, ◌==◌, if◌then◌else◌, length-drop, append_assoc,
}
use dowow_network.Prelude.Bytes.{u32_mod, read_bytes-take}
use dowow_network.Connection.State.{Connection, set_timer_fd_timeout}
use dowow_network.Connection.Send.{after_send, send_buffered, send_loaded, send}
use dowow_network.Connection.Send.Pending.{pending, IsLoaded, IsSendable, load_lem, after_send_lem}

-- The kernel takes no more bytes than it is given.
abbrev pub Takes : (ℕ → Option ℕ) → Type 0
Takes kernel = (asked n : ℕ) → kernel asked ≡ some n → n ≤ asked

-- A call ends with this result: what it sent and what is then pending are what was pending.
abbrev pub Sends : Connection → Outcome (Bool × Connection × List ℕ) → Type 0
Sends c o =
    (r : Bool × Connection × List ℕ) × (o ≡ done r)
    × (r.2 ++ pending r.1 ≡ pending c)
    × IsSendable r.1

module _ (kernel : ℕ → Option ℕ) (takes : Takes kernel) where
  send_buffered_lem :
      (c : Connection) (buf : List ℕ)
      → IsSendable c
      → c.send_buffer ≡ some buf
      → Sends c (send_buffered kernel c buf)
  unfolding send_buffered
  send_buffered_lem c buf s e = elim (Option-cases (kernel asked)) [
    | inl broken ↦ ((false, c, []), rw (broken, send_buffered) refl, refl, s)
    | inr (n, took) ↦ elim (Bool-cases (n == 0)) [
      | inl closed ↦ ((false, c, []), rw (took, send_buffered, closed) refl, refl, s)
      | inr some_bytes ↦
          let room : n ≤ length buf - c.send_buffer_offset =
            ground (arith, takes asked n took, loaded) in
          let left = after_send_lem c buf n s e (ground arith) room in
          (
            ((after_send c n).0, (after_send c n).1, take n (drop c.send_buffer_offset buf)),
            rw
                (
                  took,
                  send_buffered,
                  some_bytes,
                  read_bytes-take (drop c.send_buffer_offset buf) n
                      (omega (arith, length-drop {0} c.send_buffer_offset buf)),
                )
                refl,
            left.0,
            left.1,
          )
    ]
  ]
    where
      left_to_send : ℕ
      left_to_send = (c.send_buffer_length + u32_mod - c.send_buffer_offset) % u32_mod

      asked : ℕ
      asked = if ltb left_to_send c.send_block_size then left_to_send else c.send_block_size

      loaded : IsLoaded (some buf) c.send_buffer_length c.send_buffer_offset
      loaded = subst (λ o. IsLoaded o c.send_buffer_length c.send_buffer_offset) e s.loaded

  send_loaded_lem : (c : Connection) → IsSendable c → Sends c (send_loaded kernel c)
  unfolding send_loaded
  send_loaded_lem c s = elim (Option-cases c.send_buffer) [
    | inl e ↦ (
      (true, record c { our_sa_timer = set_timer_fd_timeout c.our_sa_timer c.our_sa_interval }, []),
      ground arith,
      refl,
      record { loaded = s.loaded; queued = s.queued; block = s.block },
    )
    | inr (buf, e) ↦
        let (r, ran, same, sound) = send_buffered_lem c buf s e in
        (r, rw (e, send_loaded) ran, same, sound)
  ]

  -- Whatever the kernel takes, a call of `Send` does not fault; the bytes that it puts on the socket
  -- and those then pending are the bytes that were pending, and the object stays sound.
  pub send_lem : (c : Connection) → IsSendable c → Sends c (send kernel c)
  unfolding send
  send_lem c s =
      let (loaded, ran, same, sound) = load_lem c s in
      let (r, sent, rest, left) = send_loaded_lem loaded sound in
      (r, rw ran sent, rest ∙ same, left)

-- Calls of `Send` one after the other, with what the kernel does in each, until one tells that the
-- connection is over. The result is the object and all bytes that went to the socket.
unfoldable pub send_rounds : List (ℕ → Option ℕ) → Connection → Outcome (Connection × List ℕ)
send_rounds [] this = done (this, [])
send_rounds (kernel ∷ kernels) this = send kernel this >>= λ r.
    let more = send_rounds kernels r.1 >>= λ q. done (q.0, r.2 ++ q.1) in
    if r.0 then more else done (r.1, r.2)

-- Of an object whose buffer has its length and something left to send, whose queued requests are
-- sound and whose blocks are not empty: over any number of calls in which the kernel takes no more
-- than it is given, nothing faults, and the bytes that went to the socket with those still pending
-- are the rest of the buffer and the queued requests in their order: none is lost, sent twice or
-- out of order.
pub send_rounds-stream :
    (kernels : List (ℕ → Option ℕ)) (c : Connection)
    → All Takes kernels
    → IsSendable c
    → (q : Connection × List ℕ) × (send_rounds kernels c ≡ done q)
      × (q.1 ++ pending q.0 ≡ pending c)
      × IsSendable q.0
unfolding send_rounds
send_rounds-stream [] c takes s = ((c, []), refl, refl, s)
send_rounds-stream (kernel ∷ kernels) c takes s =
    let (r, ran, same, sound) = send_lem kernel takes.0 c s in
    let (q, rest, joined, left) = send_rounds-stream kernels r.1 takes.1 sound in
    elim (Bool-cases r.0) [
      | inl alive ↦ (
        (q.0, r.2 ++ q.1),
        rw (ran, alive, rest) refl,
        append_assoc r.2 q.1 (pending q.0) ∙ ap (λ bs. r.2 ++ bs) joined ∙ same,
        left,
      )
      | inr over ↦ ((r.1, r.2), rw (ran, over) refl, same, sound)
    ]
