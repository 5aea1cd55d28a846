-- ===== src/Connection/Invariant.antt =====
-- What holds of a connection between the calls of its functions.
pub mod Sends
pub mod Receives
pub mod Calls
pub mod Waits
pub mod Reachable
pub mod Rounds
pub mod Setters
use dowow_network.Prelude.{
  ℕ, ◌+◌, ◌-◌, ◌%◌, ◌<◌, ◌≤◌, ◌≡◌, ◌⊎◌, inl, inr, refl, ap, Bool, true, false, Option, none, some,
  List, [], ◌∷◌, ◌++◌, All, length, ltb, arith, if◌then◌else◌,
}
use dowow_network.Prelude.Int.{ℤ, pos, negsuc}
use dowow_network.Prelude.Bytes.{u32_mod}
use dowow_network.Request.{Request}
use dowow_network.Connection.State
use dowow_network.Connection.State.{
  Connection, init, at_least_one, set_our_sa_interval, set_their_na_interval_limit,
  set_send_block_size, set_recv_block_size, set_max_request_size, set_even_request_ids_part,
  set_handler_default, set_handler_named, increase_refs, decrease_refs,
}
use dowow_network.Connection.Send.Pending.{IsSendable}
use dowow_network.Connection.Api.Ids.{OnItsSide}

-- Waiting for a length, four bytes of it at most have arrived; else the buffer has been written up to
-- the offset, which lies within its length.
abbrev pub IsReading : Bool → List ℕ → ℕ → ℕ → Type 0
IsReading true buf len offset = (buf ≡ []) × (offset ≤ 4) × (len < u32_mod)
IsReading false buf len offset = (length buf ≡ offset) × (offset ≤ len) × (len < u32_mod)

-- The descriptor is not -1.
abbrev pub IsThere : Option ℕ → Type 0
IsThere o = (n : ℕ) × (o ≡ some n)

-- The event that the thread has stopped is there, and that to stop it while it is connected.
abbrev pub HasEvents : ℕ → Option ℕ → Option ℕ → Type 0
HasEvents type stopped to_stop = IsThere stopped × ((type ≡ 0) ⊎ IsThere to_stop)

pub record IsSound (c : Connection) : Type 0 where
  pub side : OnItsSide c
  pub sendable : IsSendable c
  pub reading : IsReading c.is_recv_length c.recv_buffer c.recv_buffer_length c.recv_buffer_offset
  pub recv_block : 0 < c.recv_block_size
  pub max_request : 10 ≤ c.recv_buffer_max_length
  pub our_interval : 0 < c.our_sa_interval
  pub their_interval : 0 < c.their_na_interval
  pub events : HasEvents c.socket_type c.stopped_event c.to_stop_event

pub init-IsSound : IsSound init
unfolding init
init-IsSound = record {
  side = (refl, omega arith);
  sendable = record { loaded = (refl, refl); queued = tt; block = omega arith };
  reading = (refl, omega arith, omega arith);
  recv_block = omega arith;
  max_request = omega arith;
  our_interval = omega arith;
  their_interval = omega arith;
  events = ((0, refl), inl refl);
}

-- The fields that `IsSound` reads, but for those of the sending half, and the latter.
abbrev pub Rest : Type 0
Rest = ℕ × Bool × Bool × List ℕ × ℕ × ℕ × ℕ × ℕ × ℕ × ℕ × ℕ × Option ℕ × Option ℕ

abbrev pub rest : Connection → Rest
rest c = (
  c.free_request_id, c.is_even_request_parts, c.is_recv_length, c.recv_buffer, c.recv_buffer_length,
  c.recv_buffer_offset, c.recv_block_size, c.recv_buffer_max_length, c.our_sa_interval,
  c.their_na_interval, c.socket_type, c.stopped_event, c.to_stop_event,
)

abbrev pub Sending : Type 0
Sending = Option (List ℕ) × ℕ × ℕ × List Request × ℕ

abbrev pub sending : Connection → Sending
sending c =
    (c.send_buffer, c.send_buffer_length, c.send_buffer_offset, c.send_queue, c.send_block_size)

pub sending-IsSendable : (c d : Connection) → sending d ≡ sending c → IsSendable c → IsSendable d
sending-IsSendable c d e s = record {
  loaded =
      rw (ap (λ (v : Sending). v.0) e, ap (λ (v : Sending). v.1) e, ap (λ (v : Sending). v.2) e)
        s.loaded;
  queued = rw (ap (λ (v : Sending). v.3) e) s.queued;
  block = rw (ap (λ (v : Sending). v.4) e) s.block;
}

-- An object is sound whose sending half is, and that has the other fields of a sound one.
pub rest-IsSound : (c d : Connection) → rest d ≡ rest c → IsSendable d → IsSound c → IsSound d
rest-IsSound c d e sendable s = record {
  side = rw (ap (λ (v : Rest). v.0) e, ap (λ (v : Rest). v.1) e) s.side;
  sendable = sendable;
  reading =
      rw
        (
          ap (λ (v : Rest). v.2) e,
          ap (λ (v : Rest). v.3) e,
          ap (λ (v : Rest). v.4) e,
          ap (λ (v : Rest). v.5) e,
        )
        s.reading;
  recv_block = rw (ap (λ (v : Rest). v.6) e) s.recv_block;
  max_request = rw (ap (λ (v : Rest). v.7) e) s.max_request;
  our_interval = rw (ap (λ (v : Rest). v.8) e) s.our_interval;
  their_interval = rw (ap (λ (v : Rest). v.9) e) s.their_interval;
  events =
      rw (ap (λ (v : Rest). v.10) e, ap (λ (v : Rest). v.11) e, ap (λ (v : Rest). v.12) e) s.events;
}

pub same-IsSound :
    (c d : Connection) → rest d ≡ rest c → sending d ≡ sending c → IsSound c → IsSound d
same-IsSound c d e f s = rest-IsSound c d e (sending-IsSendable c d f s.sendable) s

module _ (c : Connection) (s : IsSound c) where
  pub reading-IsSound :
      (d : Connection)
      → rest d
        ≡ rest (record c {
          is_recv_length = d.is_recv_length;
          recv_buffer = d.recv_buffer;
          recv_buffer_length = d.recv_buffer_length;
          recv_buffer_offset = d.recv_buffer_offset;
        })
      → sending d ≡ sending c
      → IsReading d.is_recv_length d.recv_buffer d.recv_buffer_length d.recv_buffer_offset
      → IsSound d
  reading-IsSound d e f reading =
      rest-IsSound
        (record c {
          is_recv_length = d.is_recv_length;
          recv_buffer = d.recv_buffer;
          recv_buffer_length = d.recv_buffer_length;
          recv_buffer_offset = d.recv_buffer_offset;
        })
        d e (sending-IsSendable c d f s.sendable)
        (record {
          side = s.side;
          sendable = record {
            loaded = s.sendable.loaded;
            queued = s.sendable.queued;
            block = s.sendable.block;
          };
          reading = reading;
          recv_block = s.recv_block;
          max_request = s.max_request;
          our_interval = s.our_interval;
          their_interval = s.their_interval;
          events = s.events;
        })

  -- A write to the event to stop, or a read of it.
  pub to_stop-IsSound :
      (f : Option ℕ → Option ℕ)
      → ((n : ℕ) → IsThere (f (some n)))
      → IsSound (record c { to_stop_event = f c.to_stop_event })
  to_stop-IsSound f there = record {
    side = s.side;
    sendable = record {
      loaded = s.sendable.loaded;
      queued = s.sendable.queued;
      block = s.sendable.block;
    };
    reading = s.reading;
    recv_block = s.recv_block;
    max_request = s.max_request;
    our_interval = s.our_interval;
    their_interval = s.their_interval;
    events = (
      s.events.0,
      elim s.events.1 [ inl closed ↦ inl closed | inr (n, e) ↦ inr (rw e (there n)) ],
    );
  }
