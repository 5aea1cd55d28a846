-- ===== src/Tests/Transfers.antt =====
-- Connection.cpp, run over ways of calls and from one end to the other.
use dowow_network.Prelude.{
  ℕ, zero, suc, ◌/◌, ◌≤◌, ◌<◌, ◌≡◌, refl, true, false, Option, none, some, List, [], ◌∷◌, length,
  replicate, All, arith, done,
}
use dowow_network.Prelude.Int.{to_unsigned}
use dowow_network.Prelude.Bytes.{le_bytes, bytes_eq}
use dowow_network.Value.ValueArr.{count}
use dowow_network.Value.Wire
use dowow_network.Datum.Wire as DatumWire
use dowow_network.Request.{Request}
use dowow_network.Request.Wire as RequestWire
use dowow_network.Connection.State
use dowow_network.Connection.State.{
  Connection, is_connected, is_disconnecting_now, set_even_request_ids_part, set_timer_fd_timeout,
  write_event_fd, get_handler_named, find_handler, has_something_to_send,
}
use dowow_network.Connection.Send.{send}
use dowow_network.Connection.Send.Pending.{encode_all, IsSendable, pending}
use dowow_network.Connection.Send.Stream.{Takes, Sends}
use dowow_network.Connection.Send.Drain.{Works}
use dowow_network.Connection.Receive.{keep_alive_name}
use dowow_network.Connection.Receive.Partial.{IsIdle}
use dowow_network.Connection.Receive.Feed.{IsAccepted}
use dowow_network.Connection.Transfer.{transfer, pulls, transfer-queue}
use dowow_network.Connection.Api.{af_unix, initialize_by_fd, enqueue, push}
use dowow_network.Connection.Invariant.{IsSound}
use dowow_network.Connection.Invariant.Receives.{Reads}
use dowow_network.Connection.Invariant.Reachable.{
  Reach, ids_part, here, setting, starting, pushing, Reach-IsSound, Reach-send,
}
use dowow_network.Prelude.Text.{codes}
use dowow_network.Connection.Receive.Handled.{afterwards, IsReceiving}
use dowow_network.Connection.Transfer.Handled.{transfer-handled}
use dowow_network.Tests.{question, question-IsValid, open_connection}

-- A handler that leaves the connection as it is.
abbrev ignore : ℕ → Connection → Request → Connection
ignore h c r = c

-- The kernel takes all that it is given.
abbrev all_of : ℕ → Option ℕ
all_of asked = some asked

all_of-Works : Works all_of
all_of-Works asked some_bytes = (asked, refl, some_bytes, omega arith)

many-Works : (n : ℕ) → All Works (replicate n all_of)
many-Works zero = tt
many-Works (suc n) = (all_of-Works, many-Works n)

many-limits : (n : ℕ) → All (λ limit. 4 ≤ limit) (replicate n 8)
many-limits zero = tt
many-limits (suc n) = (omega arith, many-limits n)

abbrev sending : Connection
sending = record open_connection { send_queue = question ∷ [] }

sending-IsSendable : IsSendable sending
unfolding State.init
sending-IsSendable = record {
  loaded = (refl, refl);
  queued = (question-IsValid, tt);
  block = omega arith;
}

receiver-IsIdle : IsIdle open_connection
unfolding State.init
receiver-IsIdle = record { at_length = refl; no_bytes = refl; at_start = refl }

question-IsAccepted : IsAccepted open_connection question
unfolding State.init get_handler_named find_handler bytes_eq RequestWire.encode
    RequestWire.encode_arguments DatumWire.encode Wire.encode le_bytes count to_unsigned
question-IsAccepted = record {
  queued = record { unnamed = refl; no_default = refl; told = refl };
  valid = question-IsValid;
  fits = omega arith;
}

no_buffer : sending.send_buffer ≡ none
unfolding State.init
no_buffer = refl

no_requests : open_connection.recv_queue ≡ []
unfolding State.init
no_requests = refl

some_block : 0 < open_connection.recv_block_size
unfolding State.init
some_block = omega arith

short_stream : length (encode_all sending.send_queue) ≤ 80
unfolding State.init encode_all RequestWire.encode RequestWire.encode_arguments DatumWire.encode
    Wire.encode le_bytes count to_unsigned
short_stream = omega arith

transfer-queue_example :
    (s : Connection) × (d : Connection) × (transfer ignore
        (replicate 80 all_of)
        (replicate 80 8)
        sending
        open_connection
      ≡ done (s, true, d, []))
    × (pending s ≡ [])
    × IsIdle d
    × ((pulls (length sending.send_queue) d).0 ≡ sending.send_queue)
transfer-queue_example =
    transfer-queue ignore (replicate 80 all_of) (replicate 80 8) sending open_connection
      sending-IsSendable no_buffer receiver-IsIdle no_requests some_block (question-IsAccepted, tt)
      (many-Works 80) (many-limits 80) short_stream short_stream

-- It has a handler for the request.
abbrev listening : Connection
listening = record open_connection { handlers_named = (codes "ask", 7) ∷ [] }

listening-IsIdle : IsIdle listening
unfolding State.init
listening-IsIdle = record { at_length = refl; no_bytes = refl; at_start = refl }

listening-named :
    (get_handler_named listening question.name ≡ some 7)
    × (bytes_eq question.name keep_alive_name ≡ false)
    × (0 < listening.recv_block_size)
unfolding State.init get_handler_named find_handler bytes_eq
listening-named = (refl, refl, omega arith)

one_request : sending.send_queue ≡ question ∷ []
one_request = refl

question-short :
    (length (RequestWire.encode question) ≤ listening.recv_buffer_max_length)
    × (length (RequestWire.encode question) ≤ 80)
unfolding State.init RequestWire.encode RequestWire.encode_arguments DatumWire.encode Wire.encode
    le_bytes count to_unsigned
question-short = (omega arith, omega arith)

transfer-handled_example :
    (s : Connection) × (m : Connection) × (transfer ignore
        (replicate 80 all_of)
        (replicate 80 8)
        sending
        listening
      ≡ done (s, true, afterwards (ignore 7 m question), []))
    × (pending s ≡ [])
    × IsReceiving listening m
    × IsIdle (afterwards (ignore 7 m question))
transfer-handled_example =
    transfer-handled ignore (replicate 80 all_of) (replicate 80 8) sending listening question 7
      sending-IsSendable no_buffer one_request listening-IsIdle question-short.0 listening-named.0
      listening-named.1 listening-named.2 (many-Works 80) (many-limits 80) question-short.1
      question-short.1

-- A server's connection with a request in its queue.
abbrev fresh : Connection
fresh = set_even_request_ids_part (initialize_by_fd State.init af_unix) true

pushed_question : push fresh question false true ≡ done (enqueue fresh question true)
unfolding push is_connected is_disconnecting_now set_even_request_ids_part initialize_by_fd
    State.init
pushed_question = refl

fresh_question : Reach State.init (enqueue fresh question true)
fresh_question =
    pushing
      (setting (starting (here State.init) af_unix)
        (ids_part (initialize_by_fd State.init af_unix) true))
      question false true (question-IsValid, (tt, tt)) pushed_question

Reach-IsSound_example : IsSound (enqueue fresh question true)
Reach-IsSound_example = Reach-IsSound (enqueue fresh question true) fresh_question

-- The kernel takes half of what it is given.
abbrev half_of : ℕ → Option ℕ
half_of asked = some (asked / 2)

half_of-Takes : Takes half_of
half_of-Takes asked n e = ground arith

Reach-send_example :
    Sends (enqueue fresh question true) (send half_of (enqueue fresh question true))
Reach-send_example = Reach-send half_of half_of-Takes (enqueue fresh question true) fresh_question

-- The kernel has nothing to give.
abbrev broken : ℕ → Option (List ℕ)
broken asked = none

broken-Reads : Reads broken
broken-Reads asked bs e = cc
