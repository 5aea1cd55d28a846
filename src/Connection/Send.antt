-- ===== src/Connection/Send.antt =====
-- Connection.cpp: PopSendQueue and Send, which the background thread calls when the socket is writable.
pub mod Pending
pub mod Stream
pub mod Drain
use dowow_network.Prelude.{
  ℕ, ◌+◌, ◌-◌, ◌%◌, Bool, true, false, not, ◌&&◌, Option, none, some, List, [], ◌∷◌, drop, ltb,
  ◌==◌, if◌then◌else◌, Outcome, done, ◌>>=◌,
}
use dowow_network.Prelude.Bytes.{u32_mod, read_bytes}
use dowow_network.Request
use dowow_network.Connection.State.{
  Connection, set_timer_fd_timeout, has_something_to_send, delete_send_buffer,
}

-- The first request of the queue becomes the send buffer; `false` for an empty queue.
unfoldable pub pop_send_queue : Connection → Outcome (Bool × Connection)
pop_send_queue this = elim this.send_queue [
  | [] ↦ done (false, this)
  | req ∷ rest ↦ Request.serialize req >>= λ buf. done (
    true,
    record this {
      send_queue = rest;
      send_buffer = some buf;
      send_buffer_length = Request.get_size req;
      send_buffer_offset = 0;
    },
  )
]

-- The queue is popped where there is no buffer.
unfoldable pub load_send_buffer : Connection → Outcome Connection
unfolding pop_send_queue
load_send_buffer this = elim this.send_buffer [
  | some buf ↦ done this
  | none ↦ pop_send_queue this >>= λ r. done r.1
]

-- After a `send` that took `n` bytes of the buffer.
unfoldable pub after_send : Connection → ℕ → Bool × Connection
after_send this n =
    let moved : Connection = record this {
      send_buffer_offset = (this.send_buffer_offset + n) % u32_mod;
    } in
    let cleared : Connection = delete_send_buffer moved in
    let sent_all : Bool = moved.send_buffer_offset == moved.send_buffer_length in
    let finished : Connection = if sent_all then cleared else moved in
    if sent_all && (cleared.is_disconnecting && not (has_something_to_send cleared))
    then (false, finished)
    else (
      true,
      record finished {
        our_sa_timer = set_timer_fd_timeout finished.our_sa_timer finished.our_sa_interval;
      },
    )

-- `kernel` is the result of `send` for so many bytes, `none` for -1. The result is the function's
-- own, the object after the call and the bytes that went to the socket.
module _ (kernel : ℕ → Option ℕ) where
  unfoldable pub send_buffered : Connection → List ℕ → Outcome (Bool × Connection × List ℕ)
  unfolding after_send
  send_buffered this buf =
      let left_to_send : ℕ =
        (this.send_buffer_length + u32_mod - this.send_buffer_offset) % u32_mod in
      let asked : ℕ =
        if ltb left_to_send this.send_block_size then left_to_send else this.send_block_size in
      elim (kernel asked) [
        | none ↦ done (false, this, [])
        | some n ↦
            if n == 0
            then done (false, this, [])
            else (read_bytes (drop this.send_buffer_offset buf) n >>= λ bs.
                let (alive, next) = after_send this n in done (alive, next, bs))
      ]

  -- Without a buffer there is nothing to send.
  unfoldable pub send_loaded : Connection → Outcome (Bool × Connection × List ℕ)
  unfolding send_buffered
  send_loaded this = elim this.send_buffer [
    | some buf ↦ send_buffered this buf
    | none ↦ done (
      true,
      record this { our_sa_timer = set_timer_fd_timeout this.our_sa_timer this.our_sa_interval },
      [],
    )
  ]

  unfoldable pub send : Connection → Outcome (Bool × Connection × List ℕ)
  unfolding send_loaded load_send_buffer
  send this = load_send_buffer this >>= send_loaded
