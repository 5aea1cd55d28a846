-- ===== src/Connection/Invariant/Calls.antt =====
-- The invariant over the functions of Connection.cpp that put requests into the queue.
use dowow_network.Prelude.{
  ℕ, ◌+◌, ◌<◌, ◌≡◌, refl, Bool, true, false, Bool-cases, inl, inr, [], All-append, arith, not, ◌||◌,
  done,
}
use dowow_network.Prelude.Bytes.{u32_mod}
use dowow_network.Request
use dowow_network.Request.{Request}
use dowow_network.Request.Wire
use dowow_network.Request.Wire.{encode_arguments}
use dowow_network.Request.Arguments.{Distinct}
use dowow_network.Request.Arguments.Sound.{copy_of, copy_of-IsValid, copy_from_sound}
use dowow_network.Connection.State.{
  Connection, is_connected, is_disconnecting_now, set_timer_fd_timeout, write_event_fd,
}
use dowow_network.Connection.Receive.{keep_alive_name}
use dowow_network.Connection.Api.{enqueue, push, disconnect}
use dowow_network.Connection.Loop.{keep_alive}
use dowow_network.Connection.Invariant.{IsSound, same-IsSound, to_stop-IsSound}

-- A request may be pushed that is sound and whose arguments have different names.
abbrev pub IsPushable : Request → Type 0
IsPushable r = Wire.IsValid r × Distinct r.arguments

renumbered-IsValid :
    (r : Request) (id : ℕ) (numbered : id < u32_mod)
    → Wire.IsValid r
    → Wire.IsValid (Request.set_id r id)
unfolding Request.set_id
renumbered-IsValid r id numbered h = record {
  named = h.named;
  numbered = numbered;
  fits = h.fits;
  sound = h.sound;
}

enqueue-IsSound :
    (c : Connection) (r : Request) (change : Bool)
    → IsSound c
    → Wire.IsValid r
    → IsSound (enqueue c r change)
unfolding enqueue
enqueue-IsSound c r true s h = record {
  side = (omega (arith, s.side), omega arith);
  sendable = record {
    loaded = s.sendable.loaded;
    queued =
        All-append Wire.IsValid c.send_queue _ s.sendable.queued
          (renumbered-IsValid r c.free_request_id s.side.1 h, tt);
    block = s.sendable.block;
  };
  reading = s.reading;
  recv_block = s.recv_block;
  max_request = s.max_request;
  our_interval = s.our_interval;
  their_interval = s.their_interval;
  events = s.events;
}
enqueue-IsSound c r false s h = record {
  side = s.side;
  sendable = record {
    loaded = s.sendable.loaded;
    queued = All-append Wire.IsValid c.send_queue _ s.sendable.queued (h, tt);
    block = s.sendable.block;
  };
  reading = s.reading;
  recv_block = s.recv_block;
  max_request = s.max_request;
  our_interval = s.our_interval;
  their_interval = s.their_interval;
  events = s.events;
}

-- `Push` ends, and keeps the invariant.
pub push-IsSound :
    (c : Connection) (r : Request) (must_copy change : Bool)
    → IsSound c
    → IsPushable r
    → (d : Connection) × (push c r must_copy change ≡ done d) × IsSound d
unfolding push
push-IsSound c r must_copy change s h =
    elim (Bool-cases (not (is_connected c) || is_disconnecting_now c)) [
      | inl refused ↦ (c, rw refused refl, s)
      | inr taken ↦ elim (Bool-cases must_copy) [
        | inl copies ↦ (
          enqueue c (copy_of r) change,
          rw (taken, copies, copy_from_sound [] r h.0 h.1) refl,
          enqueue-IsSound c (copy_of r) change s (copy_of-IsValid r h.0),
        )
        | inr owned ↦ (enqueue c r change, rw (taken, owned) refl, enqueue-IsSound c r change s h.0)
      ]
    ]

-- The request that keeps a connection alive, and the dummy of `Disconnect`.
keep_alive-IsPushable : IsPushable (Request.init keep_alive_name)
unfolding Request.init encode_arguments
keep_alive-IsPushable =
    (record { named = omega arith; numbered = omega arith; fits = omega arith; sound = tt }, tt)

pub disconnect-IsSound :
    (c : Connection) (forced : Bool)
    → IsSound c
    → (d : Connection) × (disconnect c forced ≡ done d) × IsSound d
unfolding disconnect write_event_fd
disconnect-IsSound c forced s = elim (Bool-cases (is_connected c)) [
  | inr closed ↦ (c, rw closed refl, s)
  | inl taken ↦ elim (Bool-cases forced) [
    | inl now ↦ (
      record c { to_stop_event = write_event_fd c.to_stop_event 1 },
      rw (taken, now) refl,
      to_stop-IsSound c s (λ o. write_event_fd o 1) (λ n. (n + 1, refl)),
    )
    | inr later ↦ elim (Bool-cases c.is_disconnecting) [
      | inl already ↦ (c, ground arith, s)
      | inr first ↦
          let (d, ran, sound) =
            push-IsSound (record c { is_disconnecting = true }) (Request.init keep_alive_name) false
              false (same-IsSound c _ refl refl s) keep_alive-IsPushable in
          (d, ground (arith, ran), sound)
    ]
  ]
]

pub keep_alive-IsSound :
    (c : Connection) → IsSound c → (d : Connection) × (keep_alive c ≡ done d) × IsSound d
unfolding keep_alive
keep_alive-IsSound c s =
    let (d, ran, sound) =
      push-IsSound c (Request.init keep_alive_name) false false s keep_alive-IsPushable in
    (
      record d { our_sa_timer = set_timer_fd_timeout d.our_sa_timer d.our_sa_interval },
      rw ran refl,
      same-IsSound d _ refl refl sound,
    )
