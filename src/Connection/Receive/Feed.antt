-- ===== src/Connection/Receive/Feed.antt =====
-- A stream of requests: calls of `Receive` until all of it is taken.
use dowow_network.Prelude.{
  ℕ, ◌+◌, ◌-◌, ◌%◌, ◌^◌, ◌<◌, ◌≤◌, ◌≡◌, refl, sym, ap, ◌∙◌, Bool, true, false, List, [], ◌∷◌, ◌++◌,
  All, length, take, drop, arith, Outcome, done, ◌>>=◌, ltb, if◌then◌else◌, append_assoc,
  length-append, take-append_of_length, take-append_le, drop-append_le,
}
use dowow_network.Prelude.Bytes.{u32_mod, le_bytes, length-le_bytes}
use dowow_network.Request.{Request}
use dowow_network.Request.Wire
use dowow_network.Request.Wire.{length-request, encode_total}
use dowow_network.Connection.State.{Connection, get_handler_named, delete_recv_buffer}
use dowow_network.Connection.Send.Pending.{encode_all}
use dowow_network.Connection.Receive.{
  enqueue_received, refresh_their_na_timer, dispatch, receive_body, receive,
}
use dowow_network.Connection.Receive.Partial.{
  gives, IsIdle, IsQueued, IsPartial, read_more, next, started, receive_in_body, receive_last,
  dispatch_lem,
}

-- What `Receive` asks the kernel for.
abbrev pub recv_amount : Connection → ℕ
recv_amount this =
    let bytes_left : ℕ = (this.recv_buffer_length + u32_mod - this.recv_buffer_offset) % u32_mod in
    if this.is_recv_length
    then (4 + 2 ^ 64 - this.recv_buffer_offset) % 2 ^ 64
    else if ltb bytes_left this.recv_block_size
    then bytes_left
    else this.recv_block_size

-- `recv` takes of the stream what it is asked for, but no more than has arrived: `limit` bytes.
abbrev pub piece_of : ℕ → ℕ → List ℕ → List ℕ
piece_of limit asked stream = take (if ltb asked limit then asked else limit) stream

-- Calls of `Receive` while the stream has bytes, one for each limit, until one tells that the
-- connection is broken. The result has what is left of the stream.
unfoldable pub feed :
    (ℕ → Connection → Request → Connection)
    → List ℕ
    → List ℕ
    → Connection
    → Outcome (Bool × Connection × List ℕ)
feed call [] stream this = done (true, this, stream)
feed call (limit ∷ limits) [] this = done (true, this, [])
feed call (limit ∷ limits) (b ∷ bs) this =
    let piece : List ℕ = piece_of limit (recv_amount this) (b ∷ bs) in
    receive call (gives piece) this >>= λ r.
    let more = feed call limits (drop (length piece) (b ∷ bs)) r.1 in
    if r.0 then more else done (false, r.1, drop (length piece) (b ∷ bs))

-- A sound request within the size limit, which no handler takes and which is not named "_".
pub record IsAccepted (c : Connection) (r : Request) : Type 0 where
  pub queued : IsQueued c r
  pub valid : Wire.IsValid r
  pub fits : length (Wire.encode r) ≤ c.recv_buffer_max_length

-- The fields that this reads are the same.
pub record Same (c d : Connection) : Type 0 where
  pub named : d.handlers_named ≡ c.handlers_named
  pub fallback : d.handler_default ≡ c.handler_default
  pub limit : d.recv_buffer_max_length ≡ c.recv_buffer_max_length
  pub block : d.recv_block_size ≡ c.recv_block_size

pub IsAccepted-Same :
    {c d : Connection} → Same c d → (r : Request) → IsAccepted c r → IsAccepted d r
unfolding get_handler_named
IsAccepted-Same s r a = record {
  queued = record {
    unnamed = rw s.named a.queued.unnamed;
    no_default = s.fallback ∙ a.queued.no_default;
    told = a.queued.told;
  };
  valid = a.valid;
  fits = rw s.limit a.fits;
}

pub All-Same :
    {c d : Connection}
    → Same c d
    → (rs : List Request) → All (IsAccepted c) rs
    → All (IsAccepted d) rs
All-Same s [] a = tt
All-Same s (r ∷ rs) a = (IsAccepted-Same s r a.0, All-Same s rs a.1)

-- A run ends with an idle object that has queued these requests, and nothing is left of the stream.
abbrev pub QueuesAll : Connection → List Request → Outcome (Bool × Connection × List ℕ) → Type 0
QueuesAll c rs o =
    (d : Connection) × (o ≡ done (true, d, [])) × (d.recv_queue ≡ c.recv_queue ++ rs) × IsIdle d

-- A piece of a request's rest has some bytes, and no more than the rest or a block.
pub amount_lem :
    (c : Connection) (r : Request) (front back : List ℕ) (limit : ℕ)
    → IsPartial c r front
    → length front + length back ≡ length (Wire.encode r)
    → length (Wire.encode r) < u32_mod
    → 0 < length back
    → 0 < limit
    → 0 < c.recv_block_size
    → (n : ℕ) × ((if ltb (recv_amount c) limit then recv_amount c else limit) ≡ n)
      × (0 < n)
      × (n ≤ length back)
      × (n ≤ c.recv_block_size)
amount_lem c r front back limit p whole fits some_bytes arrived block = (
  if ltb (recv_amount c) limit then recv_amount c else limit,
  refl,
  ground arith,
  ground arith,
  ground arith,
)

pub length-encode_all :
    (r : Request) (rs : List Request)
    → length (encode_all (r ∷ rs)) ≡ length (Wire.encode r) + length (encode_all rs)
unfolding encode_all
length-encode_all r rs = length-append (Wire.encode r) (encode_all rs)

-- The first call for a request takes the four bytes of its length.
pub header_lem :
    (c : Connection) (r : Request) (rs : List Request) (limit : ℕ)
    → IsIdle c
    → 4 ≤ limit
    → let n : ℕ = length (Wire.encode r) in
      (take 4 (Wire.encode r) ≡ le_bytes 4 n)
      × (piece_of limit (recv_amount c) (encode_all (r ∷ rs)) ≡ le_bytes 4 n)
      × (drop (length (le_bytes 4 n)) (encode_all (r ∷ rs))
          ≡ drop 4 (Wire.encode r) ++ encode_all rs)
unfolding encode_all
header_lem c r rs limit i arrived =
    let size = length-request r in
    let n : ℕ = length (Wire.encode r) in
    let front : take 4 (Wire.encode r) ≡ le_bytes 4 n =
      ap (λ bs. take 4 bs) (sym (encode_total r))
      ∙ take-append_of_length 4 (le_bytes 4 n) _ (length-le_bytes 4 n) in
    let amount : (if ltb (recv_amount c) limit then recv_amount c else limit) ≡ 4 =
      ground (arith, i.at_length, i.at_start) in
    let stream : List ℕ = Wire.encode r ++ encode_all rs in
    (
      front,
      ap (λ k. take k stream) amount
          ∙ take-append_le 4 (Wire.encode r) (encode_all rs) (omega arith)
          ∙ front,
      ap (λ k. drop k stream) (length-le_bytes 4 n)
          ∙ drop-append_le 4 (Wire.encode r) (encode_all rs) (omega arith),
    )

-- The object after the last piece of a request.
abbrev pub taken : Connection → List ℕ → Request → Connection
taken c bs r = refresh_their_na_timer (delete_recv_buffer (enqueue_received (read_more c bs) r))

pub taken-Same : (c : Connection) (bs : List ℕ) (r : Request) → Same c (taken c bs r)
unfolding refresh_their_na_timer delete_recv_buffer enqueue_received
taken-Same c bs r = record { named = refl; fallback = refl; limit = refl; block = refl }

pub next-Same : (c : Connection) (bs : List ℕ) → Same c (next c bs)
unfolding refresh_their_na_timer
next-Same c bs = record { named = refl; fallback = refl; limit = refl; block = refl }

pub started-Same : (c : Connection) (n : ℕ) → Same c (started c n)
unfolding refresh_their_na_timer
started-Same c n = record { named = refl; fallback = refl; limit = refl; block = refl }

pub started_queue : (c : Connection) (n : ℕ) → (started c n).recv_queue ≡ c.recv_queue
unfolding refresh_their_na_timer
started_queue c n = refl

pub taken-IsIdle : (c : Connection) (bs : List ℕ) (r : Request) → IsIdle (taken c bs r)
unfolding refresh_their_na_timer delete_recv_buffer
taken-IsIdle c bs r = record { at_length = refl; no_bytes = refl; at_start = refl }

pub taken_queue :
    (c : Connection) (bs : List ℕ) (r : Request)
    → (taken c bs r).recv_queue ≡ c.recv_queue ++ r ∷ []
unfolding refresh_their_na_timer delete_recv_buffer enqueue_received
taken_queue c bs r = refl

-- What a run that goes on from a call with the same bounds queues.
pub after_step :
    (c d : Connection) (rs : List Request) (o o' : Outcome (Bool × Connection × List ℕ))
    → o ≡ o'
    → d.recv_queue ≡ c.recv_queue
    → QueuesAll d rs o'
    → QueuesAll c rs o
after_step c d rs o o' e q (f, ran, queue, idle) = (f, e ∙ ran, queue ∙ ap (λ xs. xs ++ rs) q, idle)

pub after_taken :
    (c d : Connection) (r : Request) (rs : List Request)
    (o o' : Outcome (Bool × Connection × List ℕ))
    → o ≡ o'
    → d.recv_queue ≡ c.recv_queue ++ r ∷ []
    → QueuesAll d rs o'
    → QueuesAll c (r ∷ rs) o
after_taken c d r rs o o' e q (f, ran, queue, idle) =
    (f, e ∙ ran, queue ∙ ap (λ xs. xs ++ rs) q ∙ append_assoc c.recv_queue (r ∷ []) rs, idle)

module _ (call : ℕ → Connection → Request → Connection) where
  -- One call that succeeds.
  pub feed_step :
      (limit : ℕ) (limits stream piece rest : List ℕ) (c d : Connection)
      → 0 < length stream
      → piece_of limit (recv_amount c) stream ≡ piece
      → drop (length piece) stream ≡ rest
      → receive call (gives piece) c ≡ done (true, d)
      → feed call (limit ∷ limits) stream c ≡ feed call limits rest d
  unfolding feed
  feed_step limit limits [] piece rest c d some_bytes cut left ran = absurd (omega arith)
  feed_step limit limits (b ∷ bs) piece rest c d some_bytes cut left ran = rw (cut, ran, left) refl

  pub receive_piece :
      (c : Connection) (r : Request) (front piece : List ℕ)
      → 0 < length piece
      → IsPartial c r front
      → length front + length piece ≤ length (Wire.encode r)
      → length (Wire.encode r) < u32_mod
      → length piece ≤ c.recv_block_size
      → receive call (gives piece) c ≡ receive_body call c piece
  receive_piece c r front [] some_bytes p room fits block = absurd (omega arith)
  receive_piece c r front (b ∷ bs) some_bytes p room fits block =
      receive_in_body call c r front b bs p room fits block

  pub receive-taken :
      (c : Connection) (r : Request) (front piece : List ℕ)
      → 0 < length piece
      → IsPartial c r front
      → IsAccepted c r
      → front ++ piece ≡ Wire.encode r
      → length piece ≤ c.recv_block_size
      → receive call (gives piece) c ≡ done (true, taken c piece r)
  receive-taken c r front piece some_bytes p a whole block =
      let lengths = ap (λ l. length l) whole in
      let parts = length-append front piece in
      receive_piece c r front piece some_bytes p (omega arith)
        (omega (arith, a.valid.fits, length-request r)) block
      ∙ receive_last call c r front piece p whole a.valid
      ∙ ap (λ d. done (true, refresh_their_na_timer (delete_recv_buffer d))) queued
    where
      queued : dispatch call (read_more c piece) r ≡ enqueue_received (read_more c piece) r
      queued = dispatch_lem call (read_more c piece) r (
          unfold get_handler_named in
          record {
            unnamed = a.queued.unnamed;
            no_default = a.queued.no_default;
            told = a.queued.told;
          })

  pub feed_nil :
      (limits : List ℕ) (c : Connection) → feed call limits (encode_all []) c ≡ done (true, c, [])
  unfolding feed encode_all
  feed_nil [] c = refl
  feed_nil (limit ∷ limits) c = refl
