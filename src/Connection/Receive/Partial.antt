-- ===== src/Connection/Receive/Partial.antt =====
-- What one call of `Receive` does to the length and to the body of a request.
use dowow_network.Prelude.{
  ℕ, ◌+◌, ◌-◌, ◌%◌, ◌<◌, ◌≤◌, ◌≡◌, refl, sym, ap, true, false, Option, none, some, List, [], ◌∷◌,
  ◌++◌, length, take, arith, done, ltb, ◌==◌, if◌then◌else◌, append-nil, length-append, take_all,
}
use dowow_network.Prelude.Bytes.{
  u32_mod, le_bytes, from_le, bytes_eq, from_le-le_bytes, length-le_bytes,
}
use dowow_network.Request
use dowow_network.Request.{Request}
use dowow_network.Request.Wire
use dowow_network.Request.Wire.{length-request, encode_total, deserialize-request}
use dowow_network.Connection.State.{Connection, get_handler_named, delete_recv_buffer}
use dowow_network.Connection.Receive.{
  keep_alive_name, enqueue_received, refresh_their_na_timer, receive_length, pass_through_handlers,
  dispatch, receive_body, receive,
}

-- `recv` gives of the next piece what it is asked for.
abbrev pub gives : List ℕ → ℕ → Option (List ℕ)
gives piece asked = some (take asked piece)

-- Nothing of a request has arrived.
pub record IsIdle (c : Connection) : Type 0 where
  pub at_length : c.is_recv_length ≡ true
  pub no_bytes : c.recv_buffer ≡ []
  pub at_start : c.recv_buffer_offset ≡ 0

-- No handler takes a request of this name, and it is not the one that keeps the connection alive.
pub record IsQueued (c : Connection) (r : Request) : Type 0 where
  pub unnamed : get_handler_named c r.name ≡ none
  pub no_default : c.handler_default ≡ none
  pub told : bytes_eq r.name keep_alive_name ≡ false

-- The first bytes of a request have arrived.
pub record IsPartial (c : Connection) (r : Request) (front : List ℕ) : Type 0 where
  pub at_body : c.is_recv_length ≡ false
  pub bytes : c.recv_buffer ≡ front
  pub size : c.recv_buffer_length ≡ length (Wire.encode r)
  pub place : c.recv_buffer_offset ≡ length front

-- The object after a piece, where more is to come.
abbrev pub read_more : Connection → List ℕ → Connection
read_more c bs = record c {
  recv_buffer = c.recv_buffer ++ bs;
  recv_buffer_offset = (c.recv_buffer_offset + length bs) % u32_mod;
}

-- The object after a piece that leaves something of the request to come.
abbrev pub next : Connection → List ℕ → Connection
next c bs = refresh_their_na_timer (read_more c bs)

pub next-IsPartial :
    (c : Connection) (r : Request) (front bs : List ℕ)
    → IsPartial c r front
    → length front + length bs < u32_mod
    → IsPartial (next c bs) r (front ++ bs)
unfolding refresh_their_na_timer
next-IsPartial c r front bs p fits = record {
  at_body = p.at_body;
  bytes = ap (λ xs. xs ++ bs) p.bytes;
  size = p.size;
  place = omega (arith, p.place, length-append front bs);
}

pub next-IsQueued :
    (c : Connection) (r : Request) (bs : List ℕ) → IsQueued c r → IsQueued (next c bs) r
unfolding refresh_their_na_timer get_handler_named
next-IsQueued c r bs q = record { unnamed = q.unnamed; no_default = q.no_default; told = q.told }

pub next_queue : (c : Connection) (bs : List ℕ) → (next c bs).recv_queue ≡ c.recv_queue
unfolding refresh_their_na_timer
next_queue c bs = refl

-- The object after the length of a request.
abbrev pub started : Connection → ℕ → Connection
started c n = refresh_their_na_timer (record c {
  recv_buffer_length = n;
  recv_buffer_offset = 4;
  recv_buffer = le_bytes 4 n;
  is_recv_length = false;
})

pub started-IsPartial :
    (c : Connection) (r : Request)
    → IsPartial (started c (length (Wire.encode r))) r (le_bytes 4 (length (Wire.encode r)))
unfolding refresh_their_na_timer
started-IsPartial c r = record {
  at_body = refl;
  bytes = refl;
  size = refl;
  place = sym (length-le_bytes 4 (length (Wire.encode r)));
}

pub started-IsQueued :
    (c : Connection) (r : Request) (n : ℕ) → IsQueued c r → IsQueued (started c n) r
unfolding refresh_their_na_timer get_handler_named
started-IsQueued c r n q = record { unnamed = q.unnamed; no_default = q.no_default; told = q.told }

module _ (call : ℕ → Connection → Request → Connection) where
  -- In the body, `Receive` asks for the rest of the request or a block of it.
  pub receive_in_body :
      (c : Connection) (r : Request) (front : List ℕ) (b : ℕ) (bs : List ℕ)
      → IsPartial c r front
      → length front + length (b ∷ bs) ≤ length (Wire.encode r)
      → length (Wire.encode r) < u32_mod
      → length (b ∷ bs) ≤ c.recv_block_size
      → receive call (gives (b ∷ bs)) c ≡ receive_body call c (b ∷ bs)
  unfolding receive
  receive_in_body c r front b bs p room fits block =
      let bytes_left : ℕ = (c.recv_buffer_length + u32_mod - c.recv_buffer_offset) % u32_mod in
      let asked : ℕ = if ltb bytes_left c.recv_block_size then bytes_left else c.recv_block_size in
      let whole : take asked (b ∷ bs) ≡ b ∷ bs = take_all asked (b ∷ bs) (ground arith) in
      ground (arith, whole)

  pub receive_part :
      (c : Connection) (r : Request) (front bs : List ℕ)
      → IsPartial c r front
      → length front + length bs < length (Wire.encode r)
      → length (Wire.encode r) < u32_mod
      → receive_body call c bs ≡ done (true, refresh_their_na_timer (read_more c bs))
  unfolding receive_body
  receive_part c r front bs p part fits = ground arith

  pub receive_last :
      (c : Connection) (r : Request) (front bs : List ℕ)
      → IsPartial c r front
      → front ++ bs ≡ Wire.encode r
      → Wire.IsValid r
      → receive_body call c bs
        ≡ done
            (true, refresh_their_na_timer (delete_recv_buffer (dispatch call (read_more c bs) r)))
  unfolding receive_body
  receive_last c r front bs p whole v =
      let size = length-request r in
      let parts = length-append front bs in
      let complete : ((c.recv_buffer_offset + length bs) % u32_mod == c.recv_buffer_length) ≡ true =
        ground (arith, ap (λ l. length l) whole, p.place, p.size) in
      let some_bytes : (length (Wire.encode r) == 0) ≡ false = ground arith in
      rw (complete, read, some_bytes) refl
    where
      read :
          Request.deserialize (Request.init []) (c.recv_buffer ++ bs) c.recv_buffer_length
          ≡ done (length (Wire.encode r), r)
      read =
          rw (p.bytes, whole, p.size)
            (rw append-nil at (deserialize-request r [] v (Request.init [])))

  pub dispatch_lem :
      (c : Connection) (r : Request) → IsQueued c r → dispatch call c r ≡ enqueue_received c r
  unfolding dispatch pass_through_handlers
  dispatch_lem c r q = ground arith

  pub receive_header :
      (c : Connection) (n : ℕ)
      → IsIdle c
      → n < u32_mod
      → 4 ≤ n
      → n ≤ c.recv_buffer_max_length
      → receive call (gives (le_bytes 4 n)) c ≡ done (true, started c n)
  unfolding receive receive_length le_bytes
  receive_header c n i wide some_bytes fits =
      let back : from_le (le_bytes 4 n ++ []) ≡ n = rw append-nil (from_le-le_bytes 4 n wide) in
      ground (arith, back)
