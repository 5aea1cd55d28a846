-- ===== src/Tests/Requests.antt =====
-- Datum.cpp and Request.cpp, run on a request with one argument.
use dowow_network.Prelude.{
  ◌≡◌, ◌≢◌, refl, true, none, some, [], ◌∷◌, ◌++◌, length, arith, done, stuck, ◌>>=◌, if◌then◌else◌,
}
use dowow_network.Prelude.Int.{to_unsigned}
use dowow_network.Prelude.Bytes.{le_bytes, bytes_eq}
use dowow_network.Prelude.Text.{codes}
use dowow_network.Value.Data.{v32u}
use dowow_network.Value.ValueArr.{count}
use dowow_network.Value.Wire
use dowow_network.Value.Copy.{without_raw}
use dowow_network.Datum.{Datum}
use dowow_network.Datum.Wire as DatumWire
use dowow_network.Datum.Wire.{serialize-datum, deserialize-datum}
use dowow_network.Request
use dowow_network.Request.{Request, set, get, init, copy_from, find}
use dowow_network.Request.Wire as RequestWire
use dowow_network.Request.Wire.{serialize-request, deserialize-request}
use dowow_network.Request.Total.{request-ne-stuck}
use dowow_network.Request.Arguments.{get-set, copy_from-duplicate}
use dowow_network.Tests.{sample, sample-IsValid, number, question, question-IsValid}

number-length : length (DatumWire.encode number) ≡ 49
unfolding DatumWire.encode Wire.encode le_bytes count to_unsigned
number-length = refl

serialize-request_example : Request.serialize question ≡ done (RequestWire.encode question)
serialize-request_example = serialize-request question question-IsValid

deserialize-request_example :
    Request.deserialize
      (init [])
      (RequestWire.encode question ++ 7 ∷ [])
      (length (RequestWire.encode question))
    ≡ done (length (RequestWire.encode question), question)
deserialize-request_example = deserialize-request question (7 ∷ []) question-IsValid (init [])

request-ne-stuck_example : Request.deserialize (init []) (1 ∷ 2 ∷ []) 20 ≢ stuck
request-ne-stuck_example = request-ne-stuck (init []) (1 ∷ 2 ∷ []) 20 (omega arith)

get-set_example :
    (set question (codes "w") (some sample) true >>= λ s. done (get s (codes "v")))
    ≡ done (
        if bytes_eq (codes "w") (codes "v")
        then some (without_raw sample)
        else get question (codes "v"))
get-set_example = get-set question (codes "w") (codes "v") (some sample) true sample-IsValid

-- A request with two arguments of different names.
abbrev two_arguments : Request
two_arguments = record {
  name = codes "ask";
  id = 5;
  arguments = number ∷ record { name = codes "w"; value = v32u 3 } ∷ [];
}

small-IsValid : Wire.IsValid (v32u 3)
unfolding Wire.IsValid
small-IsValid = omega arith

different : find (codes "w") (number ∷ []) ≡ none
unfolding find bytes_eq
different = refl

copy_from-duplicate_example :
    let other : Datum = record { name = codes "v"; value = v32u 3 } in
    let original : Request = record {
      name = codes "ask";
      id = 5;
      arguments = number ∷ other ∷ [];
    } in
    (get original (codes "v") ≡ some sample)
    × ((copy_from (init []) original >>= λ c. done (get c (codes "v")))
        ≡ done (some (without_raw (v32u 3))))
copy_from-duplicate_example =
    copy_from-duplicate (codes "ask") number (record { name = codes "v"; value = v32u 3 }) 5
      sample-IsValid small-IsValid refl
