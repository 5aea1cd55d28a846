-- ===== src/Connection/Api.antt =====
-- Connection.cpp: InitializeByFD, the constructor over a socket, Push, Pull and Disconnect, which other
-- threads call.
pub mod Ids
pub mod Graceful
use dowow_network.Prelude.{
  ℕ, ◌+◌, ◌%◌, Bool, true, false, not, ◌&&◌, ◌||◌, Option, none, some, List, [], ◌∷◌, ◌++◌, ◌==◌,
  if◌then◌else◌, Outcome, done, ◌>>=◌,
}
use dowow_network.Prelude.Bytes.{u32_mod}
use dowow_network.Request
use dowow_network.Request.{Request}
use dowow_network.Connection.Receive.{keep_alive_name}
use dowow_network.Connection.State
use dowow_network.Connection.State.{
  Connection, is_connected, is_disconnecting_now, write_event_fd, set_even_request_ids_part,
}

-- What `getsockopt` tells of the socket.
pub data SocketDomain : Type 0 where
  af_unix af_inet af_other : SocketDomain

-- `enum SocketType`; `none` for a domain that is not supported.
unfoldable pub type_of_domain : SocketDomain → Option ℕ
type_of_domain af_unix = some 1
type_of_domain af_inet = some 2
type_of_domain af_other = none

-- The events and the timers are new. The sending half is left as it was.
unfoldable pub start : Connection → ℕ → Connection
start this type = record this {
  socket_type = type;
  stopped_event = some 0;
  push_event = some 0;
  to_stop_event = some 0;
  our_sa_timer = some this.our_sa_interval;
  their_na_timer = some this.their_na_interval;
  is_disconnecting = false;
  free_request_id = if this.is_even_request_parts then 2 else 1;
  recv_queue = [];
}

unfoldable pub initialize_by_fd : Connection → SocketDomain → Connection
unfolding start type_of_domain
initialize_by_fd this domain =
    let started : Connection = elim (type_of_domain domain) [
      | some type ↦ start this type
      | none ↦ this
    ] in
    if is_connected this then this else started

-- The constructor over a socket, which the server calls for each client.
unfoldable pub of_fd : SocketDomain → Connection
unfolding initialize_by_fd
of_fd domain = set_even_request_ids_part (initialize_by_fd State.init domain) true

-- What the client's thread does once it is connected.
unfoldable pub client_connected : Connection → SocketDomain → Connection
unfolding initialize_by_fd
client_connected this domain = set_even_request_ids_part (initialize_by_fd this domain) true

-- The request goes to the end of the send queue, under a new id if that is wanted.
unfoldable pub enqueue : Connection → Request → Bool → Connection
enqueue this req change_request_id =
    let numbered : Connection = record this {
      send_queue = this.send_queue ++ Request.set_id req this.free_request_id ∷ [];
      free_request_id = (this.free_request_id + 2) % u32_mod;
      push_event = write_event_fd this.push_event 1;
    } in
    let plain : Connection = record this {
      send_queue = this.send_queue ++ req ∷ [];
      push_event = write_event_fd this.push_event 1;
    } in
    if change_request_id then numbered else plain

-- What `Push` does once the object was found connected: it holds `mutex_sq` by then, and no longer
-- `mutex_cd`.
unfoldable pub push_locked : Connection → Request → Bool → Bool → Outcome Connection
unfolding enqueue
push_locked this req must_copy change_request_id =
    let copied = Request.copy_from (Request.init []) req >>= λ copy.
    done (enqueue this copy change_request_id) in
    if must_copy then copied else done (enqueue this req change_request_id)

-- `between` is what other threads do to the object after its state is looked at and before the send
-- queue is locked. The result is the null pointer whatever the timeout is, and is left out with it.
unfoldable pub push_with :
    (Connection → Connection) → Connection → Request → Bool → Bool → Outcome Connection
unfolding push_locked
push_with between this req must_copy change_request_id =
    let queued = push_locked (between this) req must_copy change_request_id in
    if not (is_connected this) || is_disconnecting_now this then done this else queued

-- `Push` where no other thread comes in between.
unfoldable pub push : Connection → Request → Bool → Bool → Outcome Connection
unfolding push_with
push this req must_copy change_request_id = push_with (λ c. c) this req must_copy change_request_id

-- `Push` of a reference: of a copy that is always made.
unfoldable pub push_reference : Connection → Request → Bool → Outcome Connection
unfolding push
push_reference this req change_request_id =
    Request.copy_from (Request.init []) req >>= λ copy. push this copy false change_request_id

unfoldable pub pull_now : Connection → Option Request × Connection
pull_now this = elim this.recv_queue [
  | [] ↦ (none, this)
  | req ∷ rest ↦ (some req, record this { recv_queue = rest })
]

-- `wait` is what the other threads do to the object until the event or the timeout.
unfoldable pub pull_waiting : (Connection → Connection) → Connection → Option Request × Connection
unfolding pull_now
pull_waiting wait this =
    let (res, after) = pull_now (wait (record this { receive_event = some 0 })) in
    (res, record after { receive_event = none })

unfoldable pub pull : (Connection → Connection) → Bool → Connection → Option Request × Connection
unfolding pull_waiting
pull wait has_timeout this = elim this.recv_queue [
  | req ∷ rest ↦ (some req, record this { recv_queue = rest })
  | [] ↦
      if not has_timeout
      then (none, this)
      else elim this.receive_event [ some n ↦ (none, this) | none ↦ pull_waiting wait this ]
]

-- The graceful way sets the flag before it pushes the dummy request. The wait for the background
-- thread is a part of `disconnect_waiting`.
unfoldable pub disconnect : Connection → Bool → Outcome Connection
unfolding push
disconnect this forced =
    let marked : Connection = record this { is_disconnecting = true } in
    if not (is_connected this)
    then done this
    else if forced
    then done (record this { to_stop_event = write_event_fd this.to_stop_event 1 })
    else if this.is_disconnecting
    then done this
    else push marked (Request.init keep_alive_name) false false

-- With the wait for the thread's end, where it is wanted: `wait` is what other threads do meanwhile.
unfoldable pub disconnect_waiting :
    (Connection → Connection) → Connection → Bool → Bool → Outcome Connection
unfolding disconnect
disconnect_waiting wait this forced wait_for_join =
    let asked = disconnect this forced >>= λ c. done (if wait_for_join then wait c else c) in
    if is_connected this then asked else done this

-- The destructor. Joining the thread and freeing are left out.
unfoldable pub destroy : (Connection → Connection) → Connection → Outcome Connection
unfolding disconnect_waiting
destroy wait this =
    disconnect_waiting wait this true true >>= λ c. done (record c { stopped_event = none })
