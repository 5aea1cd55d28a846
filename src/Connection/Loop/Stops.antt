-- ===== src/Connection/Loop/Stops.antt =====
-- Connection.cpp: a forced Disconnect, the background thread that it stops, and the waits for that.
use dowow_network.Prelude.{ℕ, ◌+◌, ◌≡◌, refl, inl, inr, true, false, Option, List, [], done, arith}
use dowow_network.Request.{Request}
use dowow_network.Connection.State
use dowow_network.Connection.State.{
  Connection, is_connected, select_read, write_event_fd, wait_for_stop, get_stopped_event,
  delete_send_buffer, delete_recv_buffer,
}
use dowow_network.Connection.Api.{disconnect}
use dowow_network.Connection.Loop.{Revents, round, poll, read_event_fd, finish, wait_for_refs}
use dowow_network.Connection.Invariant.{IsSound, IsThere, to_stop-IsSound, same-IsSound}
use dowow_network.Connection.Invariant.Reachable.{Reach, Reach-IsSound, Reach-preserves}
use dowow_network.Connection.Invariant.Waits.{wait_for_refs-IsSound}

-- What `poll` reports of the event to stop, with what it reports of the rest.
abbrev pub reports : Revents → Connection → Revents
reports ready c = record ready { to_stop = select_read c.to_stop_event }

abbrev pub asked_to_stop : Connection → Connection
asked_to_stop c = record c { to_stop_event = write_event_fd c.to_stop_event 1 }

abbrev pub stop_read : Connection → Connection
stop_read c = record c { to_stop_event = read_event_fd c.to_stop_event }

written_IsReady : (o : Option ℕ) → IsThere o → select_read (write_event_fd o 1) ≡ true
unfolding select_read write_event_fd
written_IsReady o (n, e) = rw e (ground arith)

connected_IsThere : (c : Connection) → IsSound c → is_connected c ≡ true → IsThere c.to_stop_event
unfolding is_connected
connected_IsThere c s connected = elim s.events.1 [
  | inl closed ↦ absurd (ground arith)
  | inr there ↦ there
]

stop_read-IsSound : (c : Connection) → IsSound c → IsSound (stop_read c)
unfolding read_event_fd
stop_read-IsSound c s = to_stop-IsSound c s read_event_fd (λ n. (0, refl))

asked_to_stop-IsSound : (c : Connection) → IsSound c → IsSound (asked_to_stop c)
unfolding write_event_fd
asked_to_stop-IsSound c s = to_stop-IsSound c s (λ o. write_event_fd o 1) (λ n. (n + 1, refl))

pub finish-stopped :
    (others : Connection → Connection) (c : Connection)
    → ((x : Connection) → IsSound x → IsSound (others x))
    → IsSound c
    → (is_connected (finish others c) ≡ false)
      × (select_read (finish others c).stopped_event ≡ true)
unfolding finish is_connected delete_send_buffer delete_recv_buffer
finish-stopped others c tame s =
    let marked : Connection = record c {
      is_disconnecting = true;
      receive_event = write_event_fd c.receive_event 1;
    } in
    let w = wait_for_refs-IsSound others tame marked (same-IsSound c marked refl refl s) in
    (refl, written_IsReady (wait_for_refs others marked).stopped_event w.events.0)

-- Of a connected object that calls of a connection's functions lead to, in any order: a forced
-- `Disconnect` returns, and whatever else `poll` reports, the next pass of the background thread's loop is
-- the last, and sends and receives nothing. Once other threads have given their references back, the object
-- is not connected, and a call of `WaitForStop` returns true. While `poll` waits, and after the loop, other
-- threads do what they want by calls of these functions.
pub Reach-stops :
    (call : ℕ → Connection → Request → Connection) (recv : ℕ → Option (List ℕ))
    (socket_send : ℕ → Option ℕ) (between others : Connection → Connection)
    → ((x : Connection) → Reach x (between x))
    → ((x : Connection) → Reach x (others x))
    → (c : Connection) → Reach State.init c
    → is_connected c ≡ true
    → (d : Connection) × (disconnect c true ≡ done d)
      × ((ready : Revents)
          → round call recv socket_send between (reports ready d) d
            ≡ done (false, stop_read (between d), []))
      × (is_connected (finish others (stop_read (between d))) ≡ false)
      × (wait_for_stop (λ x. finish others (stop_read (between x))) d ≡ true)
unfolding disconnect round poll wait_for_stop get_stopped_event
Reach-stops call recv socket_send between others shared tame c way connected =
    let s = Reach-IsSound c way in
    let ready = written_IsReady c.to_stop_event (connected_IsThere c s connected) in
    let now = between (asked_to_stop c) in
    let sound = Reach-preserves (shared (asked_to_stop c)) (asked_to_stop-IsSound c s) in
    let (closed, stopped) =
      finish-stopped others (stop_read now) (λ x. Reach-preserves (tame x))
        (stop_read-IsSound now sound) in
    (asked_to_stop c, rw connected refl, (λ events. rw ready refl), closed, stopped)
