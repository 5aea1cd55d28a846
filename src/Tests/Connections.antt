-- ===== src/Tests/Connections.antt =====
-- Connection.cpp, run on a connection over a UNIX socket.
use dowow_network.Prelude.{
  ℕ, ◌/◌, ◌%◌, ◌≤◌, ◌≡◌, refl, true, false, Option, some, List, [], ◌∷◌, ◌++◌, length, All, arith,
  done, if◌then◌else◌,
}
use dowow_network.Request.{Request}
use dowow_network.Connection.State
use dowow_network.Connection.State.{Connection, is_connected, get_handler_named, find_handler}
use dowow_network.Connection.Send.Pending.{encode_all, IsSendable, pending}
use dowow_network.Connection.Send.Stream.{Takes, send_rounds, send_rounds-stream}
use dowow_network.Connection.Send.Drain.{Works, send_rounds-drains}
use dowow_network.Connection.Receive.Partial.{IsIdle}
use dowow_network.Connection.Receive.Reassembly.{receive_rounds}
use dowow_network.Connection.Receive.Framing.{split_length}
use dowow_network.Connection.Api.{disconnect}
use dowow_network.Connection.Api.Graceful.{disconnect_graceful}
use dowow_network.Connection.Api.Ids.{OnItsSide, push_rounds, number_from, push_rounds-side}
use dowow_network.Tests.{question, question-IsValid, open_connection}

-- The kernel takes half of what it is given.
abbrev half_of : ℕ → Option ℕ
half_of asked = some (asked / 2)

half_of-Takes : Takes half_of
half_of-Takes asked n e = ground arith

abbrev sending : Connection
sending = record open_connection { send_queue = question ∷ [] }

sending-IsSendable : IsSendable sending
unfolding State.init
sending-IsSendable = record {
  loaded = (refl, refl);
  queued = (question-IsValid, tt);
  block = omega arith;
}

send_rounds-stream_example :
    (q : Connection × List ℕ) × (send_rounds (half_of ∷ half_of ∷ []) sending ≡ done q)
    × (q.1 ++ pending q.0 ≡ pending sending)
    × IsSendable q.0
send_rounds-stream_example =
    send_rounds-stream (half_of ∷ half_of ∷ []) sending (half_of-Takes, (half_of-Takes, tt))
      sending-IsSendable

-- A handler that leaves the connection as it is.
abbrev ignore : ℕ → Connection → Request → Connection
ignore h c r = c

open_connection-IsIdle : IsIdle open_connection
unfolding State.init
open_connection-IsIdle = record { at_length = refl; no_bytes = refl; at_start = refl }

no_length : open_connection.recv_buffer_length ≡ 0
unfolding State.init
no_length = refl

split_length_example :
    (d : Connection) × (receive_rounds ignore ((40 ∷ 1 ∷ []) ∷ (16 ∷ 0 ∷ []) ∷ []) open_connection
      ≡ done (true, d))
    × (d.recv_buffer_length ≡ 16)
unfolding State.init
split_length_example =
    split_length ignore open_connection 40 1 16 0 open_connection-IsIdle no_length (omega arith)
      (omega arith) (omega arith) (omega arith) (omega arith) (omega arith)

open_connection-connected : is_connected open_connection ≡ true
unfolding is_connected
open_connection-connected = refl

open_connection-alive : open_connection.is_disconnecting ≡ false
unfolding State.init
open_connection-alive = refl

disconnect_graceful_example :
    disconnect open_connection false ≡ done (record open_connection { is_disconnecting = true })
disconnect_graceful_example =
    disconnect_graceful open_connection open_connection-connected open_connection-alive

open_connection-OnItsSide : OnItsSide open_connection
unfolding State.init
open_connection-OnItsSide = (refl, omega arith)

push_rounds-side_example :
    (d : Connection) × (push_rounds (question ∷ question ∷ []) open_connection ≡ done d)
    × (d.send_queue
        ≡ open_connection.send_queue
          ++ number_from open_connection.free_request_id (question ∷ question ∷ []))
    × All
        (λ (r : Request). r.id % 2 ≡ (if open_connection.is_even_request_parts then 0 else 1))
        (number_from open_connection.free_request_id (question ∷ question ∷ []))
    × OnItsSide d
push_rounds-side_example =
    push_rounds-side (question ∷ question ∷ []) open_connection open_connection-connected
      open_connection-alive open_connection-OnItsSide

-- The kernel takes all that it is given.
abbrev all_of : ℕ → Option ℕ
all_of asked = some asked

all_of-Works : Works all_of
all_of-Works asked some_bytes = (asked, refl, some_bytes, omega arith)

-- Three bytes of a buffer are left to be sent.
abbrev finishing : Connection
finishing = record open_connection {
  send_buffer = some (1 ∷ 2 ∷ 3 ∷ 4 ∷ []);
  send_buffer_length = 4;
  send_buffer_offset = 1;
}

finishing-IsSendable : IsSendable finishing
unfolding State.init
finishing-IsSendable = record {
  loaded = (refl, omega arith, omega arith);
  queued = tt;
  block = omega arith;
}

finishing-short : length (pending finishing) ≤ 3
unfolding State.init encode_all
finishing-short = omega arith

send_rounds-drains_example :
    (d : Connection) × (send_rounds (all_of ∷ all_of ∷ all_of ∷ []) finishing
      ≡ done (d, pending finishing))
    × (pending d ≡ [])
send_rounds-drains_example =
    send_rounds-drains (all_of ∷ all_of ∷ all_of ∷ []) finishing
      (all_of-Works, (all_of-Works, (all_of-Works, tt))) finishing-IsSendable finishing-short
