-- ===== src/Connection/Receive.antt =====
-- Connection.cpp: PassThroughHandlers and Receive, which the background thread calls when the socket
-- is readable. A handler is code of the library's user: what the call of one does to the object is an
-- argument.
pub mod Partial
pub mod Reassembly
pub mod Feed
pub mod Requests
pub mod Framing
pub mod Handled
use dowow_network.Prelude.{
  ℕ, ◌+◌, ◌-◌, ◌%◌, ◌^◌, Bool, true, false, Option, none, some, List, [], ◌∷◌, ◌++◌, length, drop,
  ltb, ◌==◌, if◌then◌else◌, Outcome, done, fault, ◌>>=◌,
}
use dowow_network.Prelude.Bytes.{u32_mod, le_bytes, from_le, bytes_eq}
use dowow_network.Request
use dowow_network.Request.{Request}
use dowow_network.Connection.State.{
  Connection, set_timer_fd_timeout, write_event_fd, delete_recv_buffer, get_handler_named,
}

-- The name of the request that only keeps the connection alive, "_".
abbrev pub keep_alive_name : List ℕ
keep_alive_name = b'_' ∷ []

-- A complete request that no handler took.
unfoldable pub enqueue_received : Connection → Request → Connection
enqueue_received this req = record this {
  recv_queue = this.recv_queue ++ req ∷ [];
  receive_event = write_event_fd this.receive_event 1;
}

unfoldable pub refresh_their_na_timer : Connection → Connection
refresh_their_na_timer this = record this {
  their_na_timer = set_timer_fd_timeout this.their_na_timer this.their_na_interval;
}

-- After a `recv` of `bs` over the variable of the length, from its first byte on. The bytes of the
-- length go to the front of the new buffer, whatever its size.
unfoldable pub receive_length : Connection → List ℕ → Outcome (Bool × Connection)
receive_length this bs =
    let read : Connection = record this {
      recv_buffer_length = from_le (bs ++ drop (length bs) (le_bytes 4 this.recv_buffer_length));
      recv_buffer_offset = this.recv_buffer_offset + length bs;
    } in
    let started : Connection = record read {
      recv_buffer_offset = 4;
      recv_buffer = le_bytes 4 read.recv_buffer_length;
      is_recv_length = false;
    } in
    if read.recv_buffer_offset == 4
    then (if ltb this.recv_buffer_max_length read.recv_buffer_length
        then done (false, read)
        else if ltb read.recv_buffer_length 4
        then fault
        else done (true, refresh_their_na_timer started))
    else done (true, refresh_their_na_timer read)

module _ (call : ℕ → Connection → Request → Connection) where
  -- The named handler, or else the default one; `false` where there is none.
  unfoldable pub pass_through_handlers : Connection → Request → Bool × Connection
  pass_through_handlers this r = elim (get_handler_named this r.name) [
    | some h ↦ (true, call h this r)
    | none ↦ elim this.handler_default [ some h ↦ (true, call h this r) | none ↦ (false, this) ]
  ]

  -- A complete request: one that keeps the connection alive is dropped.
  unfoldable pub dispatch : Connection → Request → Connection
  unfolding pass_through_handlers enqueue_received
  dispatch this req =
      let (handled, after) = pass_through_handlers this req in
      if bytes_eq req.name keep_alive_name
      then this
      else if handled
      then after
      else enqueue_received after req

  -- After a `recv` of `bs` behind the bytes received so far. Bytes that make no request are dropped.
  unfoldable pub receive_body : Connection → List ℕ → Outcome (Bool × Connection)
  unfolding dispatch
  receive_body this bs =
      let read : Connection = record this {
        recv_buffer = this.recv_buffer ++ bs;
        recv_buffer_offset = (this.recv_buffer_offset + length bs) % u32_mod;
      } in
      let complete =
        Request.deserialize (Request.init []) read.recv_buffer read.recv_buffer_length >>= λ r.
        let taken : Connection = dispatch read r.1 in
        done
          (true, refresh_their_na_timer (delete_recv_buffer (if r.0 == 0 then read else taken))) in
      if read.recv_buffer_offset == read.recv_buffer_length
      then complete
      else done (true, refresh_their_na_timer read)

  -- `kernel` is the result of `recv` for so many bytes: `none` for -1, and no bytes for 0.
  unfoldable pub receive : (ℕ → Option (List ℕ)) → Connection → Outcome (Bool × Connection)
  unfolding receive_length receive_body
  receive kernel this =
      let bytes_left : ℕ =
        (this.recv_buffer_length + u32_mod - this.recv_buffer_offset) % u32_mod in
      let asked : ℕ =
        if this.is_recv_length
        then (4 + 2 ^ 64 - this.recv_buffer_offset) % 2 ^ 64
        else if ltb bytes_left this.recv_block_size
        then bytes_left
        else this.recv_block_size in
      elim (kernel asked) [
        | none ↦ done (false, this)
        | some [] ↦ done (false, this)
        | some (b ∷ bs) ↦
            if this.is_recv_length then receive_length this (b ∷ bs) else receive_body this (b ∷ bs)
      ]
