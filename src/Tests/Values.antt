-- ===== src/Tests/Values.antt =====
-- The values of Value.cpp and values/, run on a sample array.
use dowow_network.Prelude.{◌≡◌, refl, some, [], ◌∷◌, ◌++◌, length, arith, done, fault}
use dowow_network.Prelude.Int.{to_unsigned}
use dowow_network.Prelude.Bytes.{le_bytes}
use dowow_network.Value.Data.{v32u, str, create_value, get_type}
use dowow_network.Value.ValueArr.{count}
use dowow_network.Value.ValueStr
use dowow_network.Value.ValueStr.{ValueStr}
use dowow_network.Value.Codec.{get_size, serialize, deserialize, copy}
use dowow_network.Value.Wire.{encode}
use dowow_network.Value.Wire.Serialize.{get_size-encode, serialize-encode}
use dowow_network.Value.Wire.RoundTrip.{deserialize-encode}
use dowow_network.Value.Copy.{without_raw, copy-without_raw}
use dowow_network.Value.Malformed.{short_integer, malformed_text}
use dowow_network.Tests.{sample, sample-IsValid, sample-fits}

sample-length : length (encode sample) ≡ 42
unfolding encode le_bytes count to_unsigned
sample-length = refl

get_size-encode_example : get_size sample ≡ length (encode sample)
get_size-encode_example = get_size-encode sample sample-IsValid sample-fits

serialize-encode_example : serialize sample ≡ done (encode sample)
serialize-encode_example = serialize-encode sample sample-IsValid sample-fits

deserialize-encode_example :
    deserialize (create_value (get_type sample)) (some (encode sample ++ 9 ∷ 9 ∷ [])) 45
    ≡ done (length (encode sample), sample)
deserialize-encode_example =
    deserialize-encode sample (9 ∷ 9 ∷ []) 45 sample-IsValid (omega (arith, sample-length))
      (omega arith)

copy-without_raw_example : copy sample ≡ done (without_raw sample)
copy-without_raw_example = copy-without_raw sample sample-IsValid

short_integer_example :
    deserialize (create_value 4) (some (4 ∷ (le_bytes 4 2 ++ (1 ∷ 2 ∷ [])))) 7 ≡ done (5, v32u 0)
short_integer_example = short_integer 2 7 (1 ∷ 2 ∷ []) (omega arith) (omega arith)

malformed_text_example :
    let dangling : ValueStr = record { str_data = []; str_length = 3 } in
    (deserialize (create_value 9) (some (9 ∷ (le_bytes 4 5 ++ (le_bytes 4 3 ++ (b'a' ∷ []))))) 10
      ≡ done (5, str dangling))
    × (ValueStr.get dangling ≡ fault)
    × (serialize (str dangling) ≡ fault)
malformed_text_example =
    malformed_text 5 3 10 (b'a' ∷ []) (omega arith) (omega arith) (omega arith) (omega arith)
      (omega arith) (omega arith)
