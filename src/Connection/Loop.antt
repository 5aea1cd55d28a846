-- ===== src/Connection/Loop.antt =====
-- Connection.cpp: ConnThreadFunc, the background thread. A round is one pass of its loop, from what
-- `poll` reports; `finish` is what follows the loop.
pub mod Finish
pub mod Races
pub mod Stops
pub mod Breaks
use dowow_network.Prelude.{
  ℕ, ◌+◌, Bool, true, false, not, ◌&&◌, Option, none, some, List, [], ◌==◌, if◌then◌else◌, Outcome,
  done, ◌>>=◌,
}
use dowow_network.Request
use dowow_network.Request.{Request}
use dowow_network.Connection.State
use dowow_network.Connection.State.{
  Connection, has_something_to_send, set_timer_fd_timeout, write_event_fd, delete_send_buffer,
  delete_recv_buffer,
}
use dowow_network.Connection.Send.{send}
use dowow_network.Connection.Receive.{keep_alive_name, receive}
use dowow_network.Connection.Api.{push}

-- What `poll` reports of the five descriptors.
pub record Revents : Type 0 where
  pub to_stop : Bool
  pub readable : Bool
  pub writable : Bool
  pub our_sa : Bool
  pub their_na : Bool
  pub pushed : Bool

-- What the kernel would report, cut down to what is asked for: input only if the connection is not
-- disconnecting, output only if there is something to send.
unfoldable pub poll : Connection → Revents → Revents
poll this ready = record ready {
  readable = ready.readable && not this.is_disconnecting;
  writable = ready.writable && has_something_to_send this;
}

-- A read of an event's counter, which resets it.
unfoldable pub read_event_fd : Option ℕ → Option ℕ
read_event_fd none = none
read_event_fd (some n) = some 0

-- The timer of the own messages ran out: a request that keeps the connection alive is pushed.
unfoldable pub keep_alive : Connection → Outcome Connection
keep_alive this = push this (Request.init keep_alive_name) false false >>= λ c.
    done (record c { our_sa_timer = set_timer_fd_timeout c.our_sa_timer c.our_sa_interval })

-- The timer of their messages, and the event of a push.
unfoldable pub last_events : Revents → Connection → Bool × Connection
last_events ev this = if ev.their_na then (false, this) else (
  true,
  if ev.pushed then record this { push_event = read_event_fd this.push_event } else this,
)

module _ (call : ℕ → Connection → Request → Connection) (recv : ℕ → Option (List ℕ))
    (socket_send : ℕ → Option ℕ) where
  unfoldable pub receive_if : Bool → Connection → Outcome (Bool × Connection)
  receive_if b this = let result = receive call recv this in if b then result else done (true, this)

  unfoldable pub send_if : Bool → Connection → Outcome (Bool × Connection × List ℕ)
  send_if b this = let result = send socket_send this in if b then result else done (true, this, [])

  unfoldable pub keep_alive_if : Bool → Connection → Outcome Connection
  unfolding keep_alive
  keep_alive_if b this = let result = keep_alive this in if b then result else done this

  -- Whether the loop goes on, the object and the bytes that went to the socket.
  unfoldable pub events_round : Revents → Connection → Outcome (Bool × Connection × List ℕ)
  unfolding receive_if send_if keep_alive_if last_events
  events_round ev this = receive_if ev.readable this >>= λ received.
      let sending = send_if ev.writable received.1 >>= λ sent.
      let rest = keep_alive_if ev.our_sa sent.1 >>= λ kept.
      let (alive, next) = last_events ev kept in done (alive, next, sent.2) in
      if sent.0 then rest else done (false, sent.1, sent.2) in
      if received.0 then sending else done (false, received.1, [])

  -- A pass of the loop. The events are asked for on `this`; the mutex is given up while `poll` waits, and
  -- `between` is what other threads do to the object then.
  unfoldable pub round :
      (Connection → Connection) → Revents → Connection → Outcome (Bool × Connection × List ℕ)
  unfolding events_round poll
  round between ready this =
      let ev : Revents = poll this ready in
      let now : Connection = between this in
      let goes_on = events_round ev now in
      if ev.to_stop
      then done (false, record now { to_stop_event = read_event_fd now.to_stop_event }, [])
      else goes_on

-- The event that a connection is not needed, where one is made or there already.
unfoldable pub wait_for_refs : (Connection → Connection) → Connection → Connection
wait_for_refs wait this =
    let needed : Connection =
      if this.refs_amount == 0 then this else record this { not_needed_event = some 0 } in
    elim needed.not_needed_event [
      | none ↦ needed
      | some n ↦ record (wait needed) { not_needed_event = none }
    ]

-- After the loop. `wait` is what other threads do to the object while this one waits until it is not
-- needed any more. The receive queue is kept.
unfoldable pub finish : (Connection → Connection) → Connection → Connection
unfolding wait_for_refs
finish wait this =
    let marked : Connection = record this {
      is_disconnecting = true;
      receive_event = write_event_fd this.receive_event 1;
    } in
    let cleared : Connection =
      delete_recv_buffer (delete_send_buffer (wait_for_refs wait marked)) in
    record cleared {
      send_queue = [];
      socket_type = 0;
      stopped_event = write_event_fd cleared.stopped_event 1;
    }
