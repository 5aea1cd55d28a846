-- ===== src/Connection/Receive/Framing.antt =====
-- The length in front of a request, where it is too small or arrives in two pieces.
use dowow_network.Prelude.{
  false, ℕ, ◌+◌, ◌*◌, ◌<◌, ◌≤◌, ◌≡◌, refl, true, [], ◌∷◌, ◌++◌, arith, done, fault, append-nil,
}
use dowow_network.Prelude.Bytes.{le_bytes, from_le, from_le-le_bytes}
use dowow_network.Request.{Request}
use dowow_network.Connection.State.{Connection}
use dowow_network.Connection.Receive.{receive_length, receive, refresh_their_na_timer}
use dowow_network.Connection.Receive.Partial.{gives, IsIdle}
use dowow_network.Connection.Receive.Reassembly.{receive_rounds}

module _ (call : ℕ → Connection → Request → Connection) where
  -- A length below 4, which arrives at once at an object that waits for a request and passes its
  -- check of the maximum: its four bytes are written past the end of a buffer of that length.
  pub short_length :
      (c : Connection) (n : ℕ)
      → IsIdle c
      → n < 4
      → n ≤ c.recv_buffer_max_length
      → receive call (gives (le_bytes 4 n)) c ≡ fault
  unfolding receive receive_length le_bytes
  short_length c n i short fits =
      let back : from_le (le_bytes 4 n ++ []) ≡ n =
        rw append-nil (from_le-le_bytes 4 n (omega arith)) in
      ground (arith, back)

  -- Two bytes arrive at an object that waits for a length.
  abbrev half_read : Connection → ℕ → Connection
  half_read c n =
      refresh_their_na_timer (record c { recv_buffer_length = n; recv_buffer_offset = 2 })

  first_half :
      (c : Connection) (b0 b1 : ℕ)
      → IsIdle c
      → c.recv_buffer_length ≡ 0
      → receive call (gives (b0 ∷ b1 ∷ [])) c ≡ done (true, half_read c (b0 + 256 * b1))
  unfolding receive receive_length le_bytes from_le
  first_half c b0 b1 i z = ground arith

  abbrev whole_read : Connection → ℕ → Connection
  whole_read c n = refresh_their_na_timer (record c {
    recv_buffer_length = n;
    recv_buffer_offset = 4;
    recv_buffer = le_bytes 4 n;
    is_recv_length = false;
  })

  second_half :
      (c : Connection) (b2 b3 n : ℕ)
      → c.is_recv_length ≡ true
      → c.recv_buffer_offset ≡ 2
      → c.recv_buffer_length ≡ n
      → n < 65536
      → 4 ≤ b2 + 256 * b3
      → b2 + 256 * b3 ≤ c.recv_buffer_max_length
      → receive call (gives (b2 ∷ b3 ∷ [])) c ≡ done (true, whole_read c (b2 + 256 * b3))
  unfolding receive receive_length le_bytes from_le
  second_half c b2 b3 n a o e small low high = ground arith

  -- Where the first two bytes of a length arrive alone at an object that waits for a request, the
  -- other two are written over them: the length that is taken is made of the last two bytes,
  -- whatever the first were, if it is not below 4 and passes the check of the maximum.
  pub split_length :
      (c : Connection) (b0 b1 b2 b3 : ℕ)
      → IsIdle c
      → c.recv_buffer_length ≡ 0
      → b0 < 256
      → b1 < 256
      → b2 < 256
      → b3 < 256
      → 4 ≤ b2 + 256 * b3
      → b2 + 256 * b3 ≤ c.recv_buffer_max_length
      → (d : Connection) × (receive_rounds call ((b0 ∷ b1 ∷ []) ∷ (b2 ∷ b3 ∷ []) ∷ []) c
          ≡ done (true, d))
        × (d.recv_buffer_length ≡ b2 + 256 * b3)
  unfolding receive_rounds
  split_length c b0 b1 b2 b3 i z h0 h1 h2 h3 low high =
      let c' : Connection = half_read c (b0 + 256 * b1) in
      (
        whole_read c' (b2 + 256 * b3),
        rw
            (
              first_half c b0 b1 i z,
              second_half c' b2 b3 (b0 + 256 * b1) (unfold refresh_their_na_timer in i.at_length)
                  (unfold refresh_their_na_timer in refl) (unfold refresh_their_na_timer in refl)
                  (omega arith) low (unfold refresh_their_na_timer in high),
            )
            refl,
        unfold refresh_their_na_timer in refl,
      )
