-- ===== src/Value/ValueUndefined.antt =====
-- values/ValueUndefined.cpp and values/ValueUndefined.hpp: raw data of an unknown type.
-- The object is the list of its accessible bytes: `undefined_data_length` is the length of the list,
-- and `undefined_data` is null or holds at least these bytes.
use dowow_network.Prelude.{
  ℕ, ◌≡◌, ◌≢◌, List, [], ◌++◌, length, take, ltb, ◌==◌, if◌then◌else◌, arith, Outcome, done, fault,
  stuck, ◌>>=◌,
}
use dowow_network.Prelude.Bytes.{read_bytes, read_bytes-append, read_bytes-ne-stuck}
use dowow_network.Prelude.Text.{codes, to_string}

-- The bytes used, 0 for a failure, and the object after the call.
unfoldable pub deserialize_internal : List ℕ → List ℕ → ℕ → Outcome (ℕ × List ℕ)
deserialize_internal this buf len =
    let read = read_bytes buf len >>= λ bs. done (len, bs) in
    if len == 0 then done (0, this) else read

unfoldable pub get_size_internal : List ℕ → ℕ
get_size_internal this = length this

unfoldable pub serialize_internal : List ℕ → List ℕ
serialize_internal this = this

-- The indentation is printed where the length was meant.
unfoldable pub to_string_internal : ℕ → List ℕ
to_string_internal indent = codes "undefined[" ++ to_string indent ++ codes "]"

-- A buffer of the original's length, into which the object's own old length of bytes is copied.
unfoldable pub copy_from : List ℕ → List ℕ → Outcome (List ℕ)
copy_from this original =
    if ltb (length original) (length this) then fault else done (take (length this) original)

pub deserialize_internal-serialize_internal :
    (value rest : List ℕ)
    → deserialize_internal [] (serialize_internal value ++ rest) (length value)
      ≡ done (length value, value)
unfolding deserialize_internal serialize_internal
deserialize_internal-serialize_internal value rest = ground (arith, read_bytes-append value rest)

pub deserialize_internal-ne-stuck :
    (this buf : List ℕ) (len : ℕ) → deserialize_internal this buf len ≢ stuck
unfolding deserialize_internal
deserialize_internal-ne-stuck this buf len e = ground (arith, read_bytes-ne-stuck buf len)
