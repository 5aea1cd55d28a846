-- ===== src/Connection/Receive/Reassembly.antt =====
-- A request that arrives in pieces.
use dowow_network.Prelude.{
  ℕ, ◌+◌, ◌<◌, ◌≤◌, ◌≡◌, refl, sym, ap, subst, ◌∙◌, Bool, true, List, [], ◌∷◌, ◌++◌, All, length,
  take, drop, arith, Outcome, done, ◌>>=◌, if◌then◌else◌, append_assoc, append-nil, length-append,
  take-append_of_length, take-append-drop,
}
use dowow_network.Prelude.Bytes.{le_bytes, length-le_bytes}
use native.Mathlib.Decide.{dec_lt}
use dowow_network.Request.{Request}
use dowow_network.Request.Wire
use dowow_network.Request.Wire.{length-request, encode_total, deserialize-request}
use dowow_network.Connection.State.{Connection, get_handler_named, delete_recv_buffer}
use dowow_network.Connection.Receive.{enqueue_received, refresh_their_na_timer, dispatch, receive}
use dowow_network.Connection.Receive.Partial.{
  gives, IsIdle, IsQueued, IsPartial, read_more, next, next-IsPartial, next-IsQueued, next_queue,
  started, started-IsPartial, started-IsQueued, receive_in_body, receive_part, receive_last,
  dispatch_lem, receive_header,
}

-- Calls of `Receive`, one for each piece, until one tells that the connection is broken.
unfoldable pub receive_rounds :
    (ℕ → Connection → Request → Connection)
    → List (List ℕ)
    → Connection
    → Outcome (Bool × Connection)
receive_rounds call [] this = done (true, this)
receive_rounds call (piece ∷ pieces) this = receive call (gives piece) this >>= λ r.
    let more = receive_rounds call pieces r.1 in if r.0 then more else done r

unfoldable pub flatten : List (List ℕ) → List ℕ
flatten [] = []
flatten (piece ∷ pieces) = piece ++ flatten pieces

module _ (call : ℕ → Connection → Request → Connection) where
  -- The request stands at the end of the queue, and nothing of the next has arrived.
  abbrev pub Queues : Connection → Request → Outcome (Bool × Connection) → Type 0
  Queues c r o =
      (d : Connection) × (o ≡ done (true, d)) × (d.recv_queue ≡ c.recv_queue ++ r ∷ []) × IsIdle d

  -- The pieces have bytes, and are no larger than a block.
  abbrev pub ArePieces : Connection → List (List ℕ) → Type 0
  ArePieces c pieces = All (λ piece. (0 < length piece) × (length piece ≤ c.recv_block_size)) pieces

  pieces_over :
      (c : Connection) (pieces : List (List ℕ))
      → ArePieces c pieces
      → length (flatten pieces) ≡ 0
      → pieces ≡ []
  unfolding flatten
  pieces_over c [] sizes e = refl
  pieces_over c (piece ∷ pieces) sizes e =
      absurd (omega (arith, sizes.0, length-append piece (flatten pieces)))

  last_Queues :
      (c : Connection) (r : Request) (front : List ℕ) (b : ℕ) (bs : List ℕ)
      → Wire.IsValid r
      → IsPartial c r front
      → IsQueued c r
      → front ++ (b ∷ bs) ≡ Wire.encode r
      → length (b ∷ bs) ≤ c.recv_block_size
      → Queues c r (receive_rounds call ((b ∷ bs) ∷ []) c)
  unfolding receive_rounds
  last_Queues c r front b bs v p q whole block =
      let parts = length-append front (b ∷ bs) in
      let size = ap (λ l. length l) whole in
      (
        refresh_their_na_timer (delete_recv_buffer (dispatch call (read_more c (b ∷ bs)) r)),
        rw
            (
              receive_in_body call c r front b bs p (omega arith)
                  (omega (arith, v.fits, length-request r)) block,
              receive_last call c r front (b ∷ bs) p whole v,
            )
            refl,
        rw queued (unfold refresh_their_na_timer delete_recv_buffer enqueue_received in refl),
        unfold refresh_their_na_timer delete_recv_buffer in
            record { at_length = refl; no_bytes = refl; at_start = refl },
      )
    where
      queued : dispatch call (read_more c (b ∷ bs)) r ≡ enqueue_received (read_more c (b ∷ bs)) r
      queued = dispatch_lem call (read_more c (b ∷ bs)) r (
          unfold get_handler_named in
          record { unnamed = q.unnamed; no_default = q.no_default; told = q.told })

  body_rounds :
      (c : Connection) (r : Request) (front : List ℕ) (pieces : List (List ℕ))
      → Wire.IsValid r
      → IsPartial c r front
      → IsQueued c r
      → front ++ flatten pieces ≡ Wire.encode r
      → length front < length (Wire.encode r)
      → ArePieces c pieces
      → Queues c r (receive_rounds call pieces c)
  unfolding receive_rounds flatten
  body_rounds c r front [] v p q whole part sizes =
      absurd (omega (arith, ap (λ l. length l) whole, length-append front []))
  body_rounds c r front ([] ∷ pieces) v p q whole part sizes = absurd (omega (arith, sizes.0))
  body_rounds c r front ((b ∷ bs) ∷ pieces) v p q whole part sizes =
      let fits = length-request r in
      let lengths = length-append front ((b ∷ bs) ++ flatten pieces) in
      let piece_length = length-append (b ∷ bs) (flatten pieces) in
      let size = ap (λ l. length l) whole in
      elim (dec_lt (length front + length (b ∷ bs)) (length (Wire.encode r))) [
        | yes more ↦
            let (d, ran, queue, idle) =
              body_rounds (next c (b ∷ bs)) r (front ++ (b ∷ bs)) pieces v
                (next-IsPartial c r front (b ∷ bs) p (omega (arith, v.fits)))
                (next-IsQueued c r (b ∷ bs) q)
                (append_assoc front (b ∷ bs) (flatten pieces) ∙ whole)
                (omega (arith, length-append front (b ∷ bs)))
                (unfold refresh_their_na_timer in sizes.1) in
            (
              d,
              rw
                  (
                    receive_in_body call c r front b bs p (omega arith) (omega (arith, v.fits))
                        (sizes.0).1,
                    receive_part call c r front (b ∷ bs) p more (omega (arith, v.fits)),
                  )
                  ran,
              queue ∙ ap (λ rs. rs ++ r ∷ []) (next_queue c (b ∷ bs)),
              idle,
            )
        | no last ↦
            let over : pieces ≡ [] = pieces_over c pieces sizes.1 (omega arith) in
            let short = subst (λ ps. front ++ flatten ((b ∷ bs) ∷ ps) ≡ Wire.encode r) over whole in
            subst (λ ps. Queues c r (receive_rounds call ((b ∷ bs) ∷ ps) c)) (sym over)
              (last_Queues c r front b bs v p q (simp append-nil at short) (sizes.0).1)
      ]

  -- A sound request within the size limit arrives at an object that waits for one: its first four
  -- bytes at once, and the others in pieces of any sizes up to a block. If no handler takes it and it
  -- is not named "_", it then stands at the end of the queue, and the object waits for the next.
  pub receive_rounds-request :
      (c : Connection) (r : Request) (pieces : List (List ℕ))
      → IsIdle c
      → IsQueued c r
      → Wire.IsValid r
      → length (Wire.encode r) ≤ c.recv_buffer_max_length
      → flatten pieces ≡ drop 4 (Wire.encode r)
      → ArePieces c pieces
      → Queues c r (receive_rounds call (take 4 (Wire.encode r) ∷ pieces) c)
  unfolding receive_rounds
  receive_rounds-request c r pieces i q v fits body sizes =
      let n : ℕ = length (Wire.encode r) in
      let front : take 4 (Wire.encode r) ≡ le_bytes 4 n =
        ap (λ bs. take 4 bs) (sym (encode_total r))
        ∙ take-append_of_length 4 (le_bytes 4 n) _ (length-le_bytes 4 n) in
      let whole : le_bytes 4 n ++ flatten pieces ≡ Wire.encode r =
        ap (λ bs. bs ++ flatten pieces) (sym front)
        ∙ ap (λ bs. take 4 (Wire.encode r) ++ bs) body
        ∙ take-append-drop 4 (Wire.encode r) in
      let (d, ran, queue, idle) =
        body_rounds (started c n) r (le_bytes 4 n) pieces v (started-IsPartial c r)
          (started-IsQueued c r n q) whole (omega (arith, length-request r, length-le_bytes 4 n))
          (unfold refresh_their_na_timer in sizes) in
      (
        d,
        rw
            (
              front,
              receive_header call c n i (omega (arith, v.fits, length-request r))
                  (omega (arith, length-request r)) fits,
            )
            ran,
        unfold refresh_their_na_timer in queue,
        idle,
      )
