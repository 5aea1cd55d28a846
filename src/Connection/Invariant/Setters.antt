-- ===== src/Connection/Invariant/Setters.antt =====
-- The invariant over the setters of Connection.cpp.
use dowow_network.Prelude.{
  ℕ, ◌<◌, ◌≤◌, refl, Bool, true, false, Option, none, some, List, ltb, arith, if◌then◌else◌,
}
use dowow_network.Prelude.Int.{ℤ, pos, negsuc}
use dowow_network.Connection.State.{
  Connection, at_least_one, set_our_sa_interval, set_their_na_interval_limit, set_send_block_size,
  set_recv_block_size, set_max_request_size, set_even_request_ids_part, set_handler_default,
  set_handler_named, increase_refs, decrease_refs, set_session_data,
}
use dowow_network.Connection.Api.Ids.{OnItsSide}
use dowow_network.Connection.Invariant.{IsSound, same-IsSound}

at_least_one_pos : (z : ℤ) → 0 < at_least_one z
unfolding at_least_one
at_least_one_pos (pos n) = ground arith
at_least_one_pos (negsuc n) = omega arith

module _ (c : Connection) (s : IsSound c) where
  -- The bounds may be any in their ranges, and the reading half any that is sound.
  bounds-IsSound :
      (a b m o t : ℕ)
      → 0 < a
      → 0 < b
      → 10 ≤ m
      → 0 < o
      → 0 < t
      → IsSound (record c {
        send_block_size = a;
        recv_block_size = b;
        recv_buffer_max_length = m;
        our_sa_interval = o;
        their_na_interval = t;
      })
  bounds-IsSound a b m o t ha hb hm ho ht = record {
    side = s.side;
    sendable = record { loaded = s.sendable.loaded; queued = s.sendable.queued; block = ha };
    reading = s.reading;
    recv_block = hb;
    max_request = hm;
    our_interval = ho;
    their_interval = ht;
    events = s.events;
  }

  pub set_our_sa_interval-IsSound : (z : ℤ) → IsSound (set_our_sa_interval c z)
  unfolding set_our_sa_interval
  set_our_sa_interval-IsSound z = same-IsSound _ _ refl refl (
      bounds-IsSound c.send_block_size c.recv_block_size c.recv_buffer_max_length (at_least_one z)
        c.their_na_interval s.sendable.block s.recv_block s.max_request (at_least_one_pos z)
        s.their_interval)

  pub set_their_na_interval_limit-IsSound : (z : ℤ) → IsSound (set_their_na_interval_limit c z)
  unfolding set_their_na_interval_limit
  set_their_na_interval_limit-IsSound z = same-IsSound _ _ refl refl (
      bounds-IsSound c.send_block_size c.recv_block_size c.recv_buffer_max_length c.our_sa_interval
        (at_least_one z) s.sendable.block s.recv_block s.max_request s.our_interval
        (at_least_one_pos z))

  pub set_send_block_size-IsSound : (n : ℕ) → IsSound (set_send_block_size c n)
  unfolding set_send_block_size
  set_send_block_size-IsSound n =
      bounds-IsSound (if ltb n 1 then 1 else n) c.recv_block_size c.recv_buffer_max_length
        c.our_sa_interval c.their_na_interval (ground arith) s.recv_block s.max_request
        s.our_interval s.their_interval

  pub set_recv_block_size-IsSound : (n : ℕ) → IsSound (set_recv_block_size c n)
  unfolding set_recv_block_size
  set_recv_block_size-IsSound n =
      bounds-IsSound c.send_block_size (if ltb n 1 then 1 else n) c.recv_buffer_max_length
        c.our_sa_interval c.their_na_interval s.sendable.block (ground arith) s.max_request
        s.our_interval s.their_interval

  pub set_max_request_size-IsSound : (n : ℕ) → IsSound (set_max_request_size c n)
  unfolding set_max_request_size
  set_max_request_size-IsSound n =
      bounds-IsSound c.send_block_size c.recv_block_size (if ltb n 10 then 10 else n)
        c.our_sa_interval c.their_na_interval s.sendable.block s.recv_block (ground arith)
        s.our_interval s.their_interval

  pub set_even_request_ids_part-IsSound : (b : Bool) → IsSound (set_even_request_ids_part c b)
  unfolding set_even_request_ids_part
  set_even_request_ids_part-IsSound b = record {
    side = sides b;
    sendable = record {
      loaded = s.sendable.loaded;
      queued = s.sendable.queued;
      block = s.sendable.block;
    };
    reading = s.reading;
    recv_block = s.recv_block;
    max_request = s.max_request;
    our_interval = s.our_interval;
    their_interval = s.their_interval;
    events = s.events;
  }
    where
      sides : (b' : Bool) → OnItsSide (set_even_request_ids_part c b')
      sides true = ground (arith, s.side)
      sides false = ground (arith, s.side)

  pub set_handler_default-IsSound : (h : Option ℕ) → IsSound (set_handler_default c h)
  unfolding set_handler_default
  set_handler_default-IsSound h = same-IsSound c _ refl refl s

  pub set_handler_named-IsSound :
      (name : List ℕ) (h : Option ℕ) → IsSound (set_handler_named c name h)
  unfolding set_handler_named
  set_handler_named-IsSound name none = same-IsSound c _ refl refl s
  set_handler_named-IsSound name (some h) = same-IsSound c _ refl refl s

  pub increase_refs-IsSound : IsSound (increase_refs c)
  unfolding increase_refs
  increase_refs-IsSound = same-IsSound c _ refl refl s

  pub decrease_refs-IsSound : IsSound (decrease_refs c)
  unfolding decrease_refs
  decrease_refs-IsSound = same-IsSound c _ refl refl s

  pub set_session_data-IsSound : (p : Option ℕ) → IsSound (set_session_data c p)
  unfolding set_session_data
  set_session_data-IsSound none = same-IsSound c _ refl refl s
  set_session_data-IsSound (some n) = same-IsSound c _ refl refl s
