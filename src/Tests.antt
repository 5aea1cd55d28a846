-- ===== src/Tests.antt =====
-- Concrete values, requests and connections; the children run the code on them.
mod Values
mod Requests
mod Connections
mod Endpoints
mod Transfers
mod Printing
mod Chats
mod Threads
use dowow_network.Prelude.{some, ℕ, ◌+◌, ◌^◌, ◌<◌, ◌≡◌, refl, List, [], ◌∷◌, ◌++◌, length, arith}
use dowow_network.Prelude.Int.{ℤ, negsuc, to_unsigned}
use dowow_network.Prelude.Bytes.{u32_mod, le_bytes}
use dowow_network.Prelude.Text.{codes}
use dowow_network.Value.Data.{Value, v32u, v16s, str, undefined, arr, nil, cons, get_type}
use dowow_network.Value.ValueArr.{count}
use dowow_network.Value.ValueStr.{ValueStr}
use dowow_network.Value.ValueStr.Laws
use dowow_network.Value.Wire
use dowow_network.Datum.{Datum}
use dowow_network.Datum.Wire as DatumWire
use dowow_network.Request.{Request}
use dowow_network.Request.Wire as RequestWire
use dowow_network.Connection.State
use dowow_network.Connection.State.{Connection}

-- An array of a number, a text, raw data and a negative number.
abbrev pub sample : Value
sample = arr (
    cons (v32u 7) (
      cons (str (record { str_data = codes "hi"; str_length = 2 }))
        (cons (undefined (1 ∷ [])) (cons (v16s (negsuc 1)) nil))))

pub sample-IsValid : Wire.IsValid sample
unfolding Wire.IsValid
sample-IsValid =
    (omega arith, (record { sized = refl; fits = omega arith }, (tt, (omega arith, tt))))

pub sample-fits : length (Wire.encode sample) < u32_mod
unfolding Wire.encode le_bytes count to_unsigned
sample-fits = omega arith

abbrev pub number : Datum
number = record { name = codes "v"; value = sample }

pub number-IsValid : DatumWire.IsValid number
unfolding Wire.encode le_bytes count to_unsigned
number-IsValid = record { named = omega arith; fits = omega arith; sound = sample-IsValid }

-- A request with one argument.
abbrev pub question : Request
question = record { name = codes "ask"; id = 5; arguments = number ∷ [] }

pub question-IsValid : RequestWire.IsValid question
unfolding RequestWire.encode_arguments DatumWire.encode Wire.encode le_bytes count to_unsigned
question-IsValid = record {
  named = omega arith;
  numbered = omega arith;
  fits = omega arith;
  sound = (number-IsValid, tt);
}

-- A connection over a UNIX socket, with one request in its queue.
abbrev pub open_connection : Connection
open_connection = record State.init { socket_type = 1; push_event = some 0; receive_event = some 0 }
