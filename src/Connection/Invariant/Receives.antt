-- ===== src/Connection/Invariant/Receives.antt =====
-- The invariant over Connection.cpp's Receive.
use dowow_network.Prelude.{
  ℕ, ◌+◌, ◌-◌, ◌%◌, ◌^◌, ◌<◌, ◌≤◌, ◌≡◌, refl, subst, Bool, true, false, Bool-cases, inl, inr,
  Option, none, some, List, [], ◌∷◌, ◌++◌, All, All-append, All-drop, length, length-append,
  length-drop, drop, arith, ltb, ltb→le, ◌==◌, if◌then◌else◌, Outcome, done, IfDone, IfDone->>=,
  IfDone-if, IfDone-done,
}
use dowow_network.Prelude.Bytes.{
  u32_mod, IsByte, le_bytes, length-le_bytes, le_bytes-IsByte, from_le, from_le-lt, bytes_eq,
}
use dowow_network.Request
use dowow_network.Request.{Request}
use dowow_network.Connection.State.{Connection, delete_recv_buffer, get_handler_named}
use dowow_network.Connection.Receive.{
  keep_alive_name, enqueue_received, refresh_their_na_timer, receive_length, pass_through_handlers,
  dispatch, receive_body, receive,
}
use dowow_network.Connection.Invariant.{IsSound, IsReading, same-IsSound, reading-IsSound}

-- The kernel gives no more bytes than it is asked for.
abbrev pub Reads : (ℕ → Option (List ℕ)) → Type 0
Reads kernel =
    (asked : ℕ) (bs : List ℕ) → kernel asked ≡ some bs → (length bs ≤ asked) × All IsByte bs

refresh-IsSound : (c : Connection) → IsSound c → IsSound (refresh_their_na_timer c)
unfolding refresh_their_na_timer
refresh-IsSound c s = same-IsSound c _ refl refl s

delete-IsSound : (c : Connection) → IsSound c → IsSound (delete_recv_buffer c)
unfolding delete_recv_buffer
delete-IsSound c s = reading-IsSound c s _ refl refl (refl, omega arith, omega arith)

enqueue-IsSound : (c : Connection) (r : Request) → IsSound c → IsSound (enqueue_received c r)
unfolding enqueue_received
enqueue-IsSound c r s = same-IsSound c _ refl refl s

-- Four bytes make a number of 32 bits.
read_length-lt :
    (bs : List ℕ) (old : ℕ)
    → All IsByte bs
    → length bs ≤ 4
    → from_le (bs ++ drop (length bs) (le_bytes 4 old)) < u32_mod
read_length-lt bs old h short =
    subst (λ n. from_le word < 256 ^ n) four
      (from_le-lt word
        (All-append IsByte bs _ h (All-drop IsByte (length bs) _ (le_bytes-IsByte 4 old))))
  where
    word : List ℕ
    word = bs ++ drop (length bs) (le_bytes 4 old)

    four : length word ≡ 4
    four = omega (
      arith,
      length-append bs (drop (length bs) (le_bytes 4 old)),
      length-drop (length bs) (le_bytes 4 old),
      length-le_bytes 4 old,
    )

-- `Receive` goes on with bytes only where there are some.
IfDone-bytes {ℓ} :
    {A : Type 0} (P : A → Type ℓ) (o : Option (List ℕ)) (a : A) (f : List ℕ → Outcome A)
    → P a
    → ((b : ℕ) (bs : List ℕ) → o ≡ some (b ∷ bs) → IfDone P (f (b ∷ bs)))
    → IfDone P (elim o [ none ↦ done a | some [] ↦ done a | some (b ∷ bs) ↦ f (b ∷ bs) ])
IfDone-bytes P none a f h k = h
IfDone-bytes P (some []) a f h k = h
IfDone-bytes P (some (b ∷ bs)) a f h k = k b bs refl

abbrev Leaves : Bool × Connection → Type 0
Leaves r = IsSound r.1

receive_length-IsSound :
    (c : Connection) (bs : List ℕ)
    → IsSound c
    → c.is_recv_length ≡ true
    → All IsByte bs
    → c.recv_buffer_offset + length bs ≤ 4
    → IfDone Leaves (receive_length c bs)
unfolding receive_length
receive_length-IsSound c bs s at_length bytes room =
    let wide = read_length-lt bs c.recv_buffer_length bytes (omega arith) in
    let empty : c.recv_buffer ≡ [] =
      (subst (λ b. IsReading b c.recv_buffer c.recv_buffer_length c.recv_buffer_offset) at_length
        s.reading).0 in
    let size = from_le (bs ++ drop (length bs) (le_bytes 4 c.recv_buffer_length)) in
    let reads : IsSound (record c {
      recv_buffer_length = size;
      recv_buffer_offset = c.recv_buffer_offset + length bs;
    }) =
      reading-IsSound c s _ refl refl (rw at_length (empty, room, wide)) in
    IfDone-if Leaves (c.recv_buffer_offset + length bs == 4) _ _
      (λ whole.
        IfDone-if Leaves (ltb c.recv_buffer_max_length size) _ _ (λ long. reads)
          (λ fits.
            IfDone-if Leaves (ltb size 4) _ _ (λ short. tt)
              (λ enough. refresh-IsSound _ (
                reading-IsSound c s _ refl refl
                  (length-le_bytes 4 size, ltb→le size 4 enough, wide)))))
      (λ part. refresh-IsSound _ reads)

-- The bytes are put behind those that arrived, no more than are missing.
body-IsSound :
    (c : Connection) (bs : List ℕ)
    → IsSound c
    → c.is_recv_length ≡ false
    → length bs ≤ c.recv_buffer_length - c.recv_buffer_offset
    → IsSound (record c {
      recv_buffer = c.recv_buffer ++ bs;
      recv_buffer_offset = (c.recv_buffer_offset + length bs) % u32_mod;
    })
body-IsSound c bs s at_body room =
    let old : IsReading false c.recv_buffer c.recv_buffer_length c.recv_buffer_offset =
      subst (λ b. IsReading b c.recv_buffer c.recv_buffer_length c.recv_buffer_offset) at_body
        s.reading in
    reading-IsSound c s _ refl refl
      (rw at_body (omega (arith, old, length-append c.recv_buffer bs), omega (arith, old), old.2))

module _ (call : ℕ → Connection → Request → Connection)
    (tame : (h : ℕ) (c : Connection) (r : Request) → IsSound c → IsSound (call h c r)) where
  pass_through_handlers-IsSound :
      (c : Connection) (r : Request) → IsSound c → IsSound (pass_through_handlers call c r).1
  unfolding pass_through_handlers
  pass_through_handlers-IsSound c r s =
      elim (get_handler_named c r.name)
        as (λ o.
          let p : Bool × Connection = elim o [
            | some h ↦ (true, call h c r)
            | none ↦ elim c.handler_default [ some h ↦ (true, call h c r) | none ↦ (false, c) ]
          ] in
          IsSound p.1) [
            | some h ↦ tame h c r s
            | none ↦
                elim c.handler_default
                  as (λ o.
                    let p : Bool × Connection = elim o [
                      | some h ↦ (true, call h c r)
                      | none ↦ (false, c)
                    ] in
                    IsSound p.1) [ some h ↦ tame h c r s | none ↦ s ]
          ]

  dispatch-IsSound : (c : Connection) (r : Request) → IsSound c → IsSound (dispatch call c r)
  unfolding dispatch
  dispatch-IsSound c r s = elim (Bool-cases (bytes_eq r.name keep_alive_name)) [
    | inl e ↦ rw (dispatch, e) s
    | inr e ↦ elim (Bool-cases (pass_through_handlers call c r).0) [
      | inl handled ↦ rw (dispatch, e, handled) (pass_through_handlers-IsSound c r s)
      | inr waits ↦
          rw (dispatch, e, waits) (enqueue-IsSound _ r (pass_through_handlers-IsSound c r s))
    ]
  ]

  receive_body-IsSound :
      (c : Connection) (bs : List ℕ)
      → IsSound c
      → c.is_recv_length ≡ false
      → length bs ≤ c.recv_buffer_length - c.recv_buffer_offset
      → IfDone Leaves (receive_body call c bs)
  unfolding receive_body
  receive_body-IsSound c bs s at_body room =
      let read : Connection = record c {
        recv_buffer = c.recv_buffer ++ bs;
        recv_buffer_offset = (c.recv_buffer_offset + length bs) % u32_mod;
      } in
      let reads : IsSound read = body-IsSound c bs s at_body room in
      IfDone-if Leaves (read.recv_buffer_offset == c.recv_buffer_length) _ _
        (λ whole.
          IfDone->>= Leaves
            (Request.deserialize (Request.init []) read.recv_buffer c.recv_buffer_length) _
            (λ r ran. refresh-IsSound _ (
              delete-IsSound _
                (elim (r.0 == 0) as (λ b. IsSound (if b then read else dispatch call read r.1)) [
                  | true ↦ reads
                  | false ↦ dispatch-IsSound read r.1 reads
                ]))))
        (λ part. refresh-IsSound read reads)

  -- A call of `Receive` that ends keeps the invariant, whatever the kernel gives of what it is asked
  -- for.
  pub receive-IsSound :
      (kernel : ℕ → Option (List ℕ))
      → Reads kernel
      → (c : Connection) (r : Bool × Connection) → IsSound c
      → receive call kernel c ≡ done r
      → IsSound r.1
  unfolding receive
  receive-IsSound kernel reads c r s ran =
      IfDone-done Leaves (receive call kernel c)
        (IfDone-bytes Leaves (kernel asked) (false, c)
          (λ bs. if c.is_recv_length then receive_length c bs else receive_body call c bs) s
          (λ b bs gave.
            IfDone-if Leaves c.is_recv_length _ _
              (λ at_length.
                receive_length-IsSound c (b ∷ bs) s at_length (reads asked (b ∷ bs) gave).1
                  (omega (arith, header at_length, (reads asked (b ∷ bs) gave).0)))
              (λ at_body.
                receive_body-IsSound c (b ∷ bs) s at_body
                  (omega (arith, body at_body, (reads asked (b ∷ bs) gave).0)))))
        ran
    where
      bytes_left : ℕ
      bytes_left = (c.recv_buffer_length + u32_mod - c.recv_buffer_offset) % u32_mod

      asked : ℕ
      asked =
          if c.is_recv_length
          then (4 + 2 ^ 64 - c.recv_buffer_offset) % 2 ^ 64
          else if ltb bytes_left c.recv_block_size
          then bytes_left
          else c.recv_block_size

      header :
          c.is_recv_length ≡ true → (c.recv_buffer_offset ≤ 4) × (asked ≡ 4 - c.recv_buffer_offset)
      header at_length =
          let old =
            subst (λ b. IsReading b c.recv_buffer c.recv_buffer_length c.recv_buffer_offset)
              at_length s.reading in
          (old.1, rw at_length (omega (arith, old)))

      body : c.is_recv_length ≡ false → asked ≤ c.recv_buffer_length - c.recv_buffer_offset
      body at_body =
          let old =
            subst (λ b. IsReading b c.recv_buffer c.recv_buffer_length c.recv_buffer_offset) at_body
              s.reading in
          rw at_body (ground (arith, old))
