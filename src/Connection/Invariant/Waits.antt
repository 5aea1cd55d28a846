-- ===== src/Connection/Invariant/Waits.antt =====
-- The invariant over the start and the end of a connection, and over Pull, which may wait.
use dowow_network.Prelude.{
  ℕ, ◌+◌, inl, inr, ◌%◌, ◌<◌, ◌≡◌, refl, Bool, true, false, Option, none, some, [], ◌∷◌, arith, not,
  ◌==◌, if◌then◌else◌,
}
use dowow_network.Prelude.Bytes.{u32_mod}
use dowow_network.Request.{Request}
use dowow_network.Connection.State.{
  Connection, is_connected, delete_send_buffer, delete_recv_buffer, write_event_fd,
}
use dowow_network.Connection.Api.{
  SocketDomain, af_unix, af_inet, af_other, pull_now, pull_waiting, pull, start, initialize_by_fd,
}
use dowow_network.Connection.Loop.{wait_for_refs, finish}
use dowow_network.Connection.Invariant.{IsSound, same-IsSound}

start_lem : (c : Connection) (type : ℕ) → IsSound c → IsSound (start c type)
unfolding start
start_lem c type s = record {
  side = first c.is_even_request_parts;
  sendable = record {
    loaded = s.sendable.loaded;
    queued = s.sendable.queued;
    block = s.sendable.block;
  };
  reading = s.reading;
  recv_block = s.recv_block;
  max_request = s.max_request;
  our_interval = s.our_interval;
  their_interval = s.their_interval;
  events = ((0, refl), inr (0, refl));
}
  where
    first :
        (b : Bool)
        → ((if b then 2 else 1) % 2 ≡ (if b then 0 else 1)) × ((if b then 2 else 1) < u32_mod)
    first true = (refl, omega arith)
    first false = (refl, omega arith)

if-IsSound : (b : Bool) (c d : Connection) → IsSound c → IsSound d → IsSound (if b then c else d)
if-IsSound true c d s t = s
if-IsSound false c d s t = t

pub initialize_by_fd-IsSound :
    (c : Connection) (domain : SocketDomain) → IsSound c → IsSound (initialize_by_fd c domain)
unfolding initialize_by_fd
initialize_by_fd-IsSound c af_unix s = if-IsSound (is_connected c) c _ s (start_lem c 1 s)
initialize_by_fd-IsSound c af_inet s = if-IsSound (is_connected c) c _ s (start_lem c 2 s)
initialize_by_fd-IsSound c af_other s = if-IsSound (is_connected c) c _ s s

pull_now-IsSound : (c : Connection) → IsSound c → IsSound (pull_now c).1
unfolding pull_now
pull_now-IsSound c s =
    elim c.recv_queue
      as (λ q.
        let p : Option Request × Connection = elim q [
          | [] ↦ (none, c)
          | req ∷ rest ↦ (some req, record c { recv_queue = rest })
        ] in
        IsSound p.1) [ [] ↦ s | req ∷ rest ↦ same-IsSound c _ refl refl s ]

-- What others do while the thread waits keeps the invariant.
module _ (wait : Connection → Connection)
    (tame : (c : Connection) → IsSound c → IsSound (wait c)) where
  pull_waiting-IsSound : (c : Connection) → IsSound c → IsSound (pull_waiting wait c).1
  unfolding pull_waiting
  pull_waiting-IsSound c s = same-IsSound _ _ refl refl (
      pull_now-IsSound _
        (tame _ (same-IsSound c (record c { receive_event = some 0 }) refl refl s)))

  pub pull-IsSound : (b : Bool) (c : Connection) → IsSound c → IsSound (pull wait b c).1
  unfolding pull
  pull-IsSound b c s =
      elim c.recv_queue
        as (λ q.
          let p : Option Request × Connection = elim q [
            | req ∷ rest ↦ (some req, record c { recv_queue = rest })
            | [] ↦
                if not b
                then (none, c)
                else elim c.receive_event [ some n ↦ (none, c) | none ↦ pull_waiting wait c ]
          ] in
          IsSound p.1) [
            | req ∷ rest ↦ same-IsSound c _ refl refl s
            | [] ↦
                elim (not b)
                  as (λ t.
                    let p : Option Request × Connection =
                      if t then (none, c) else elim c.receive_event [
                        | some n ↦ (none, c)
                        | none ↦ pull_waiting wait c
                      ] in
                    IsSound p.1) [
                      | true ↦ s
                      | false ↦
                          elim c.receive_event
                            as (λ o.
                              let p : Option Request × Connection = elim o [
                                | some n ↦ (none, c)
                                | none ↦ pull_waiting wait c
                              ] in
                              IsSound p.1) [ some n ↦ s | none ↦ pull_waiting-IsSound c s ]
                    ]
          ]

  pub wait_for_refs-IsSound : (c : Connection) → IsSound c → IsSound (wait_for_refs wait c)
  unfolding wait_for_refs
  wait_for_refs-IsSound c s = waited needed.not_needed_event
    where
      needed : Connection
      needed = if c.refs_amount == 0 then c else record c { not_needed_event = some 0 }

      sound : IsSound needed
      sound = if-IsSound (c.refs_amount == 0) c _ s (same-IsSound c _ refl refl s)

      waited :
          (o : Option ℕ)
          → let d : Connection = elim o [
            | none ↦ needed
            | some n ↦ record (wait needed) { not_needed_event = none }
          ] in
            IsSound d
      waited none = sound
      waited (some n) = same-IsSound _ _ refl refl (tame needed sound)

  pub finish-IsSound : (c : Connection) → IsSound c → IsSound (finish wait c)
  unfolding finish delete_send_buffer delete_recv_buffer write_event_fd
  finish-IsSound c s =
      let marked : Connection = record c {
        is_disconnecting = true;
        receive_event = write_event_fd c.receive_event 1;
      } in
      let w = wait_for_refs-IsSound marked (same-IsSound c marked refl refl s) in
      record {
        side = w.side;
        sendable = record { loaded = (refl, refl); queued = tt; block = w.sendable.block };
        reading = (refl, omega arith, omega arith);
        recv_block = w.recv_block;
        max_request = w.max_request;
        our_interval = w.our_interval;
        their_interval = w.their_interval;
        events = (let (n, e) = w.events.0 in (n + 1, rw e refl), inl refl);
      }
