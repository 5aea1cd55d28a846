-- ===== src/Connection/Loop/Breaks.antt =====
-- Connection.cpp: the ends of ConnThreadFunc's loop that the peer, or its silence, brings about.
use dowow_network.Prelude.{
  ℕ, ◌+◌, ◌-◌, ◌%◌, ltb, ◌∙◌, ◌≡◌, refl, subst, inl, inr, ◌⊎◌, true, false, Bool, Option,
  Option-cases, List-cases, none, some, List, [], ◌∷◌, All, Outcome, done, arith, Bool-cases,
  if◌then◌else◌,
}
use dowow_network.Request.{Request}
use dowow_network.Request.Wire
use dowow_network.Connection.State
use dowow_network.Connection.State.{
  Connection, is_connected, has_something_to_send, wait_for_stop, get_stopped_event,
}
use dowow_network.Connection.Send.{send_buffered, send_loaded, load_send_buffer, send}
use dowow_network.Connection.Send.Pending.{IsSendable, IsLoaded, popped, pop_lem}
use dowow_network.Connection.Send.Stream.{Takes}
use dowow_network.Prelude.Bytes.{u32_mod}
use dowow_network.Connection.Receive.{receive}
use dowow_network.Connection.Receive.Feed.{recv_amount}
use dowow_network.Connection.Loop.{
  Revents, poll, last_events, receive_if, send_if, keep_alive_if, events_round, round, finish,
}
use dowow_network.Connection.Loop.Stops.{finish-stopped}
use dowow_network.Connection.Invariant.{IsSound}
use dowow_network.Connection.Invariant.Calls.{keep_alive-IsSound}
use dowow_network.Connection.Invariant.Receives.{Reads}
use dowow_network.Connection.Invariant.Reachable.{Reach, Reach-IsSound, Reach-preserves}
use dowow_network.Connection.Invariant.Rounds.{round-Reach}

-- `recv` fails, or the peer has closed.
abbrev pub IsClosed : (ℕ → Option (List ℕ)) → Type 0
IsClosed recv = (asked : ℕ) → (recv asked ≡ none) ⊎ (recv asked ≡ some [])

-- `send` fails, or takes nothing.
abbrev pub IsRefused : (ℕ → Option ℕ) → Type 0
IsRefused socket_send = (asked : ℕ) → (socket_send asked ≡ none) ⊎ (socket_send asked ≡ some 0)

-- What a pass meets, with the object after the wait and the events that were asked for and came: there
-- is something to read and the read fails; or there is not, and a write fails; or the socket has neither,
-- and the timer of their messages ran out.
abbrev pub IsLost : (ℕ → Option (List ℕ)) → (ℕ → Option ℕ) → Connection → Revents → Type 0
IsLost recv socket_send now ev =
    ((ev.readable ≡ true) × IsClosed recv)
    ⊎ ((ev.readable ≡ false)
        × (ev.writable ≡ true)
        × (has_something_to_send now ≡ true)
        × IsRefused socket_send)
    ⊎ ((ev.readable ≡ false) × (ev.writable ≡ false) × (ev.their_na ≡ true))

-- A call ends with false, and nothing went to the socket.
abbrev IsLast : Outcome (Bool × Connection × List ℕ) → Type 0
IsLast o = (d : Connection) × (o ≡ done (false, d, []))

module _ (call : ℕ → Connection → Request → Connection) (recv : ℕ → Option (List ℕ))
    (socket_send : ℕ → Option ℕ) where
  receive_closed : (c : Connection) → IsClosed recv → receive call recv c ≡ done (false, c)
  unfolding receive
  receive_closed c closed = elim (closed (recv_amount c)) [
    | inl broken ↦ rw (broken, receive) refl
    | inr ended ↦ rw (ended, receive) refl
  ]

  send_buffered_refused :
      (c : Connection) (buf : List ℕ)
      → IsRefused socket_send
      → IsLast (send_buffered socket_send c buf)
  unfolding send_buffered
  send_buffered_refused c buf refused = elim (refused asked) [
    | inl broken ↦ (c, rw (broken, send_buffered) refl)
    | inr nothing ↦ (c, rw (nothing, send_buffered) refl)
  ]
    where
      left_to_send : ℕ
      left_to_send = (c.send_buffer_length + u32_mod - c.send_buffer_offset) % u32_mod

      asked : ℕ
      asked = if ltb left_to_send c.send_block_size then left_to_send else c.send_block_size

  send_loaded_refused :
      (c : Connection) (buf : List ℕ)
      → c.send_buffer ≡ some buf
      → IsRefused socket_send
      → IsLast (send_loaded socket_send c)
  unfolding send_loaded
  send_loaded_refused c buf e refused =
      let (d, ran) = send_buffered_refused c buf refused in
      let loaded : send_loaded socket_send c ≡ send_buffered socket_send c buf = ground arith in
      (d, loaded ∙ ran)

  -- Where something is left to send there is a buffer after the queue was popped.
  load_something :
      (c : Connection)
      → IsSendable c
      → has_something_to_send c ≡ true
      → (d : Connection) × (buf : List ℕ) × (load_send_buffer c ≡ done d)
        × (d.send_buffer ≡ some buf)
  unfolding load_send_buffer has_something_to_send
  load_something c s something = elim (Option-cases c.send_buffer) [
    | inr (buf, e) ↦ (c, buf, ground arith, e)
    | inl e ↦ elim (List-cases c.send_queue) [
      | inl q ↦
          let empty : IsLoaded none c.send_buffer_length c.send_buffer_offset =
            subst (λ o. IsLoaded o c.send_buffer_length c.send_buffer_offset) e s.loaded in
          absurd (ground (arith, q, empty.0, empty.1))
      | inr (req, rest, q) ↦
          let sound : All Wire.IsValid (req ∷ rest) = subst (All Wire.IsValid) q s.queued in
          (popped c req rest, Wire.encode req, ground (arith, pop_lem c req rest (sound.0) q), refl)
    ]
  ]

  send_refused :
      (c : Connection)
      → IsSendable c
      → has_something_to_send c ≡ true
      → IsRefused socket_send
      → IsLast (send socket_send c)
  unfolding send
  send_refused c s something refused =
      let (loaded, buf, ran, e) = load_something c s something in
      let (d, sent) = send_loaded_refused loaded buf e refused in (d, rw ran sent)

  -- The pass is the last one, and sends nothing.
  events_round_lost :
      (ev : Revents) (now : Connection)
      → IsSound now
      → IsLost recv socket_send now ev
      → IsLast (events_round call recv socket_send ev now)
  unfolding events_round receive_if send_if keep_alive_if last_events
  events_round_lost ev now s (inl (readable, closed)) =
      (now, rw (readable, events_round, receive_closed now closed) refl)
  events_round_lost ev now s (inr (inl (quiet, writable, something, refused))) =
      let (d, ran) = send_refused now s.sendable something refused in
      (d, rw (quiet, writable, events_round, ran) refl)
  events_round_lost ev now s (inr (inr (quiet, full, silent))) =
      let (d, ran, sound) = keep_alive-IsSound now s in
      elim (Bool-cases ev.our_sa) [
        | inl due ↦ (d, rw (quiet, full, due, silent, events_round, ran) refl)
        | inr early ↦ (now, rw (quiet, full, early, silent, events_round) refl)
      ]

  ended :
      (between : Connection → Connection) (ready : Revents) (c d : Connection)
      → ready.to_stop ≡ false
      → events_round call recv socket_send (poll c ready) (between c) ≡ done (false, d, [])
      → round call recv socket_send between ready c ≡ done (false, d, [])
  unfolding round poll
  ended between ready c d going ran = ground (arith, going, ran)

  -- On any object that calls of a connection's functions lead to, in any order, when nobody asked the
  -- background thread to stop: if of the events asked for `poll` reports input, and the read fails or the
  -- peer has closed; or no input but room for output, and there still is something to send and the write
  -- fails or takes nothing; or neither, and their timer ran out: then the pass of the loop returns, is the
  -- last one and sends nothing, whatever other threads do by calls of the same functions while `poll`
  -- waits. Once other threads have given their references back the object is not connected, and a call of
  -- `WaitForStop` returns true.
  pub Reach-breaks :
      ((h : ℕ) (x : Connection) (q : Request) → Reach x (call h x q))
      → Reads recv
      → Takes socket_send
      → (between others : Connection → Connection) → ((x : Connection) → Reach x (between x))
      → ((x : Connection) → Reach x (others x))
      → (c : Connection) → Reach State.init c
      → (ready : Revents) → ready.to_stop ≡ false
      → IsLost recv socket_send (between c) (poll c ready)
      → (d : Connection) × (round call recv socket_send between ready c ≡ done (false, d, []))
        × (is_connected (finish others d) ≡ false)
        × (wait_for_stop (λ x. finish others x) d ≡ true)
  unfolding wait_for_stop get_stopped_event
  Reach-breaks tame reads takes between others shared kind c way ready going lost =
      let now = Reach-preserves (shared c) (Reach-IsSound c way) in
      let (d, ran) = events_round_lost (poll c ready) (between c) now lost in
      let last = ended between ready c d going ran in
      let sound =
        Reach-preserves
          (round-Reach call recv socket_send tame reads takes between shared ready c (false, d, [])
            last)
          now in
      let (closed, stopped) = finish-stopped others d (λ x. Reach-preserves (kind x)) sound in
      (d, last, closed, stopped)
