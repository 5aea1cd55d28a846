-- ===== src/Value/ValueStr/Laws.antt =====
-- The texts of values/ValueStr.cpp: what a sound object writes, and what is read back.
use dowow_network.Prelude.{
  ℕ, ◌+◌, ◌%◌, ◌<◌, ◌≡◌, ◌≢◌, List, [], ◌++◌, length, drop, take-length, nil_of_length, drop-append,
  arith, done, stuck, >>=-ne-stuck, length-append, append-nil, append_assoc,
}
use dowow_network.Prelude.Bytes.{
  u32_mod, read_bytes, read_le, le_bytes, fill, read_bytes-append, read_le-le_bytes,
  length-le_bytes, read_bytes-ne-stuck, read_le-ne-stuck,
}
use dowow_network.Value.ValueStr.{
  ValueStr, delete_buffer, deserialize_text, set, empty, get, get_size_internal, serialize_internal,
  deserialize_internal, copy_from,
}

-- The length is that of the data, and fits the length field with its four bytes.
pub record IsValid (s : ValueStr) : Type 0 where
  pub sized : s.str_length ≡ length s.str_data
  pub fits : s.str_length + 4 < u32_mod

pub read-str_data :
    (s : ValueStr) → IsValid s → read_bytes s.str_data s.str_length ≡ done s.str_data
read-str_data s v = rw v.sized (rw append-nil at (read_bytes-append s.str_data []))

pub get-IsValid : (s : ValueStr) → IsValid s → get s ≡ done s.str_data
unfolding get
get-IsValid s v = ground (arith, read-str_data s v, nil_of_length s.str_data)

pub serialize_internal-IsValid :
    (s : ValueStr) → IsValid s → serialize_internal s ≡ done (le_bytes 4 s.str_length ++ s.str_data)
unfolding serialize_internal get_size_internal fill
serialize_internal-IsValid s v = ground (
  arith,
  read-str_data s v,
  nil_of_length s.str_data,
  length-le_bytes 4 s.str_length,
  length-append (le_bytes 4 s.str_length) s.str_data,
)

pub get_size_internal-IsValid :
    (s : ValueStr)
    → IsValid s
    → get_size_internal s ≡ length (le_bytes 4 s.str_length ++ s.str_data)
unfolding get_size_internal
get_size_internal-IsValid s v =
    omega
      (arith, length-le_bytes 4 s.str_length, length-append (le_bytes 4 s.str_length) s.str_data)

pub deserialize_internal-serialize_internal :
    (s : ValueStr) (rest : List ℕ)
    → IsValid s
    → deserialize_internal empty
        ((le_bytes 4 s.str_length ++ s.str_data) ++ rest)
        (4 + s.str_length)
      ≡ done (4 + s.str_length, s)
unfolding deserialize_internal
deserialize_internal-serialize_internal s rest v = rw (append_assoc) (
    ground (
      arith,
      read_le-le_bytes 4 s.str_length (s.str_data ++ rest) (omega arith),
      drop-append (le_bytes 4 s.str_length) (s.str_data ++ rest),
      length-le_bytes 4 s.str_length,
      read_bytes-append s.str_data rest,
      nil_of_length s.str_data,
    ))

pub copy_from-IsValid : (t s : ValueStr) → IsValid s → copy_from t s ≡ done s
unfolding copy_from set
copy_from-IsValid t s v =
    let whole : length s.str_data % u32_mod ≡ length s.str_data = omega arith in
    rw (get-IsValid s v, whole, take-length s.str_data, ← v.sized)

deserialize_text-ne-stuck :
    (s : ValueStr) (buf : List ℕ) (len : ℕ) → deserialize_text s buf len ≢ stuck
unfolding deserialize_text
deserialize_text-ne-stuck s buf len =
    >>=-ne-stuck (read_le 4 buf) _ (read_le-ne-stuck 4 buf)
      (λ n _ e. ground (arith, read_bytes-ne-stuck (drop 4 buf) n))

pub deserialize_internal-ne-stuck :
    (s : ValueStr) (buf : List ℕ) (len : ℕ) → deserialize_internal s buf len ≢ stuck
unfolding deserialize_internal
deserialize_internal-ne-stuck s buf len e =
    ground (arith, deserialize_text-ne-stuck (delete_buffer s) buf len)
