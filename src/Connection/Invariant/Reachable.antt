-- ===== src/Connection/Invariant/Reachable.antt =====
-- Connection.cpp: the orders in which the functions of a connection may run. A run of the threads is
-- taken as a sequence of whole calls.
use dowow_network.Prelude.{
  ℕ, ◌≡◌, refl, sym, subst, Bool, true, false, Option, List, if◌then◌else◌, Outcome, done, IfDone,
  IfDone-done,
}
use dowow_network.Prelude.Int.{ℤ}
use dowow_network.Request.{Request}
use dowow_network.Connection.State
use dowow_network.Connection.State.{
  Connection, set_our_sa_interval, set_their_na_interval_limit, set_send_block_size,
  set_recv_block_size, set_max_request_size, set_even_request_ids_part, set_handler_default,
  set_handler_named, increase_refs, decrease_refs, set_session_data,
}
use dowow_network.Connection.Send.{send}
use dowow_network.Connection.Send.Stream.{Takes, Sends, send_lem}
use dowow_network.Connection.Receive.{receive}
use dowow_network.Connection.Api.{SocketDomain, push, pull, disconnect, initialize_by_fd}
use dowow_network.Connection.Loop.{Revents, read_event_fd, keep_alive, last_events, finish}
use dowow_network.Connection.Invariant.{IsSound, init-IsSound, same-IsSound, to_stop-IsSound}
use dowow_network.Connection.Invariant.Setters.{
  set_our_sa_interval-IsSound, set_their_na_interval_limit-IsSound, set_send_block_size-IsSound,
  set_recv_block_size-IsSound, set_max_request_size-IsSound, set_even_request_ids_part-IsSound,
  set_handler_default-IsSound, set_handler_named-IsSound, increase_refs-IsSound,
  decrease_refs-IsSound, set_session_data-IsSound,
}
use dowow_network.Connection.Invariant.Sends.{send-IsSound}
use dowow_network.Connection.Invariant.Receives.{Reads, receive-IsSound}
use dowow_network.Connection.Invariant.Calls.{
  IsPushable, push-IsSound, disconnect-IsSound, keep_alive-IsSound,
}
use dowow_network.Connection.Invariant.Waits.{
  initialize_by_fd-IsSound, pull-IsSound, finish-IsSound,
}

-- A call of a setter.
pub data Sets : Connection → Connection → Type 0 where
  our_interval : (c : Connection) (z : ℤ) → Sets c (set_our_sa_interval c z)
  their_limit : (c : Connection) (z : ℤ) → Sets c (set_their_na_interval_limit c z)
  send_block : (c : Connection) (n : ℕ) → Sets c (set_send_block_size c n)
  recv_block : (c : Connection) (n : ℕ) → Sets c (set_recv_block_size c n)
  max_request : (c : Connection) (n : ℕ) → Sets c (set_max_request_size c n)
  ids_part : (c : Connection) (b : Bool) → Sets c (set_even_request_ids_part c b)
  default_handler : (c : Connection) (h : Option ℕ) → Sets c (set_handler_default c h)
  named_handler :
      (c : Connection) (name : List ℕ) (h : Option ℕ) → Sets c (set_handler_named c name h)
  session : (c : Connection) (p : Option ℕ) → Sets c (set_session_data c p)
  more_refs : (c : Connection) → Sets c (increase_refs c)
  fewer_refs : (c : Connection) → Sets c (decrease_refs c)

-- A way from one object to another, by calls of the functions of other threads and of the connection's
-- own. What a handler does, and what other threads do while one waits, is such a way too.
pub data Reach : Connection → Connection → Type 0 where
  here : (c : Connection) → Reach c c
  setting : {c d e : Connection} → Reach c d → Sets d e → Reach c e
  starting :
      {c d : Connection} → Reach c d → (domain : SocketDomain) → Reach c (initialize_by_fd d domain)
  pushing :
      {c d e : Connection}
      → Reach c d
      → (r : Request) (must_copy change : Bool) → IsPushable r
      → push d r must_copy change ≡ done e
      → Reach c e
  pulling :
      {c d : Connection}
      → Reach c d
      → (wait : Connection → Connection) → ((x : Connection) → Reach x (wait x))
      → (has_timeout : Bool) → Reach c (pull wait has_timeout d).1
  disconnecting :
      {c d e : Connection} → Reach c d → (forced : Bool) → disconnect d forced ≡ done e → Reach c e
  receiving :
      {c d : Connection} {r : Bool × Connection}
      → Reach c d
      → (call : ℕ → Connection → Request → Connection)
      → ((h : ℕ) (x : Connection) (q : Request) → Reach x (call h x q))
      → (kernel : ℕ → Option (List ℕ)) → Reads kernel
      → receive call kernel d ≡ done r
      → Reach c r.1
  sends :
      {c d : Connection} {r : Bool × Connection × List ℕ}
      → Reach c d
      → (kernel : ℕ → Option ℕ) → Takes kernel
      → send kernel d ≡ done r
      → Reach c r.1
  keeping_alive : {c d e : Connection} → Reach c d → keep_alive d ≡ done e → Reach c e
  reading_event : {c d : Connection} → Reach c d → (ev : Revents) → Reach c (last_events ev d).1
  stopping :
      {c d : Connection}
      → Reach c d
      → Reach c (record d { to_stop_event = read_event_fd d.to_stop_event })
  finishing :
      {c d : Connection}
      → Reach c d
      → (wait : Connection → Connection) → ((x : Connection) → Reach x (wait x))
      → Reach c (finish wait d)

Sets-IsSound : {c d : Connection} → Sets c d → IsSound c → IsSound d
Sets-IsSound (our_interval c z) s = set_our_sa_interval-IsSound c s z
Sets-IsSound (their_limit c z) s = set_their_na_interval_limit-IsSound c s z
Sets-IsSound (send_block c n) s = set_send_block_size-IsSound c s n
Sets-IsSound (recv_block c n) s = set_recv_block_size-IsSound c s n
Sets-IsSound (max_request c n) s = set_max_request_size-IsSound c s n
Sets-IsSound (ids_part c b) s = set_even_request_ids_part-IsSound c s b
Sets-IsSound (default_handler c h) s = set_handler_default-IsSound c s h
Sets-IsSound (named_handler c name h) s = set_handler_named-IsSound c s name h
Sets-IsSound (session c p) s = set_session_data-IsSound c s p
Sets-IsSound (more_refs c) s = increase_refs-IsSound c s
Sets-IsSound (fewer_refs c) s = decrease_refs-IsSound c s

last_events-IsSound : (ev : Revents) (c : Connection) → IsSound c → IsSound (last_events ev c).1
unfolding last_events
last_events-IsSound ev c s =
    elim ev.their_na
      as (λ b.
        let p : Bool × Connection = if b then (false, c) else (
          true,
          if ev.pushed then record c { push_event = read_event_fd c.push_event } else c,
        ) in
        IsSound p.1) [
          | true ↦ s
          | false ↦
              elim ev.pushed
                as (λ b.
                  IsSound (if b then record c { push_event = read_event_fd c.push_event } else c)) [
                    | true ↦ same-IsSound c _ refl refl s
                    | false ↦ s
                  ]
        ]

read_to_stop-IsSound :
    (c : Connection)
    → IsSound c
    → IsSound (record c { to_stop_event = read_event_fd c.to_stop_event })
unfolding read_event_fd
read_to_stop-IsSound c s = to_stop-IsSound c s read_event_fd (λ n. (0, refl))

-- The result of a call that gives a sound object.
ended-IsSound :
    {o : Outcome Connection} {e : Connection}
    → ((d : Connection) × (o ≡ done d) × IsSound d)
    → o ≡ done e
    → IsSound e
ended-IsSound (d, ran, s) e = IfDone-done IsSound _ (subst (IfDone IsSound) (sym ran) s) e

pub Reach-preserves : {c d : Connection} → Reach c d → IsSound c → IsSound d
Reach-preserves (here c) s = s
Reach-preserves (setting w t) s = Sets-IsSound t (Reach-preserves w s)
Reach-preserves (starting w domain) s = initialize_by_fd-IsSound _ domain (Reach-preserves w s)
Reach-preserves (pushing w r m h p e) s =
    ended-IsSound (push-IsSound _ r m h (Reach-preserves w s) p) e
Reach-preserves (pulling w wait others t) s =
    pull-IsSound wait (λ x. Reach-preserves (others x)) t _ (Reach-preserves w s)
Reach-preserves (disconnecting w forced e) s =
    ended-IsSound (disconnect-IsSound _ forced (Reach-preserves w s)) e
Reach-preserves (receiving w call tame kernel reads e) s =
    receive-IsSound call (λ h x q. Reach-preserves (tame h x q)) kernel reads _ _
      (Reach-preserves w s) e
Reach-preserves (sends w kernel takes e) s = send-IsSound kernel takes _ _ (Reach-preserves w s) e
Reach-preserves (keeping_alive w e) s = ended-IsSound (keep_alive-IsSound _ (Reach-preserves w s)) e
Reach-preserves (reading_event w ev) s = last_events-IsSound ev _ (Reach-preserves w s)
Reach-preserves (stopping w) s = read_to_stop-IsSound _ (Reach-preserves w s)
Reach-preserves (finishing w wait others) s =
    finish-IsSound wait (λ x. Reach-preserves (others x)) _ (Reach-preserves w s)

-- Of any object that calls of a connection's functions lead to, in any order, from the one that the
-- constructor makes: where requests that are pushed are sound and have arguments of different names,
-- the kernel takes and gives no more bytes than it is asked to, and handlers and other threads do
-- nothing but call these functions, the next id is a 32-bit number of the side's half; a send buffer
-- has its length and something left to send; queued requests are sound; while a length is awaited, at
-- most four bytes of it have arrived and the receive buffer is empty, else the offset is the number of
-- bytes in that buffer and lies within the length, which has 32 bits; the block sizes, the size
-- limit and the intervals are at least their minima; the event of the thread's end is there, and the event
-- to stop the thread while the object is connected.
pub Reach-IsSound : (c : Connection) → Reach State.init c → IsSound c
Reach-IsSound c w = Reach-preserves w init-IsSound

-- From any object that such calls lead to, a call of `Send` neither faults nor gets stuck, whatever the
-- kernel takes of what it is given; the bytes that it puts on the socket and those then pending are the
-- bytes that were pending.
pub Reach-send :
    (kernel : ℕ → Option ℕ)
    → Takes kernel
    → (c : Connection) → Reach State.init c
    → Sends c (send kernel c)
Reach-send kernel takes c w = send_lem kernel takes c (Reach-preserves w init-IsSound).sendable
