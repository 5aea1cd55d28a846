-- ===== src/Value/Malformed.antt =====
-- What malformed bytes do to Value.cpp, ValueStr.cpp and ValueUndefined.cpp.
use dowow_network.Prelude.{
  ℕ, ◌+◌, ◌%◌, ◌^◌, ◌<◌, ◌≤◌, ◌≡◌, ◌≢◌, refl, List, [], ◌∷◌, ◌++◌, length, drop, some, arith, done,
  fault, ◌>>=◌, ◌==◌, ==_refl, le→ltb, lt→ltb, ◌∙◌, drop-append, false,
}
use dowow_network.Prelude.Bytes.{
  u32_mod, le_bytes, length-le_bytes, read_byte, read_le-le_bytes, read_bytes, read_bytes-fault,
}
use dowow_network.Value.Data.{Value, undefined, v32u, str, create_value, get_type}
use dowow_network.Value.ValueStr.{ValueStr, delete_buffer, deserialize_text}
use dowow_network.Value.ValueStr
use dowow_network.Value.ValueUndefined
use dowow_network.Value.Value32U
use dowow_network.Value.Codec.{deserialize_internal, deserialize_at, deserialize, serialize}

-- `Value::Deserialize` on metadata that it accepts is the class's `DeserializeInternal` on the rest,
-- with five bytes added to whatever that used. The size is compared after it wrapped.
deserialize_metadata :
    (v : Value) (size len : ℕ) (content : List ℕ)
    → size < u32_mod
    → 5 ≤ len
    → (size + 5) % u32_mod ≤ len
    → deserialize v (some (get_type v ∷ (le_bytes 4 size ++ content))) len ≡ (
        deserialize_internal
          (deserialize_at (length (get_type v ∷ (le_bytes 4 size ++ content))))
          v
          content
          size
        >>= λ r. done ((r.0 + 5) % u32_mod, r.1))
unfolding deserialize deserialize_at read_byte
deserialize_metadata v size len content small long room =
    rw
      (
        le→ltb len 5 long,
        ==_refl (get_type v),
        read_le-le_bytes 4 size content small,
        le→ltb len _ room,
        rest,
      )
      refl
  where
    rest : drop 4 (le_bytes 4 size ++ content) ≡ content
    rest = rw (length-le_bytes 4 size) at (drop-append (le_bytes 4 size) content)

-- A 32-bit integer whose content is shorter than four bytes is not refused: five bytes count as
-- used, and the new object keeps its value 0.
pub short_integer :
    (size len : ℕ) (content : List ℕ)
    → size < 4
    → size + 5 ≤ len
    → deserialize (create_value 4) (some (4 ∷ (le_bytes 4 size ++ content))) len ≡ done (5, v32u 0)
unfolding create_value get_type deserialize_internal Value32U.deserialize_internal
short_integer size len content short room =
    deserialize_metadata (v32u 0) size len content (omega arith) (omega arith) (omega arith)
    ∙ rw (lt→ltb size 4 short) refl

-- A wrong length in a text leaves the object with that length and no data.
wrong_length :
    (size n len : ℕ) (content : List ℕ)
    → 4 ≤ size
    → size + 5 < u32_mod
    → n + 4 < u32_mod
    → n + 4 ≢ size
    → size + 5 ≤ len
    → deserialize (create_value 9) (some (9 ∷ (le_bytes 4 size ++ (le_bytes 4 n ++ content)))) len
      ≡ done (5, str (record { str_data = []; str_length = n }))
unfolding create_value get_type deserialize_internal ValueStr.deserialize_internal
wrong_length size n len content some_size size_fits n_fits wrong room =
    deserialize_metadata (str ValueStr.empty) size len (le_bytes 4 n ++ content) (omega arith)
      (omega arith) (omega arith)
    ∙ rw (le→ltb size 4 some_size, read_le-le_bytes 4 n content (omega arith), mismatch) refl
  where
    mismatch : (size == (n + 4) % u32_mod) ≡ false
    mismatch = ground arith

-- Reading such an object reads through the null pointer.
dangling_text :
    (n : ℕ)
    → 0 < n
    → (ValueStr.get (record { str_data = []; str_length = n }) ≡ fault)
      × (serialize (str (record { str_data = []; str_length = n })) ≡ fault)
unfolding ValueStr.get serialize ValueStr.serialize_internal
dangling_text n h =
    let nonzero : (n == 0) ≡ false = ground arith in
    let null : read_bytes [] n ≡ fault = read_bytes-fault [] n h in
    (rw (nonzero, null) refl, rw (nonzero, null) refl)

-- A text of `size` bytes of content, 4 at least, whose own length field `n` is neither 0 nor
-- `size - 4` is not refused: five bytes count as used, and the object is left with the length `n` and
-- no data. `Get` and `Serialize` of that object then read through the null pointer.
pub malformed_text :
    (size n len : ℕ) (content : List ℕ)
    → 4 ≤ size
    → size + 5 < u32_mod
    → 0 < n
    → n + 4 < u32_mod
    → n + 4 ≢ size
    → size + 5 ≤ len
    → let dangling : ValueStr = record { str_data = []; str_length = n } in
      (deserialize (create_value 9) (some (9 ∷ (le_bytes 4 size ++ (le_bytes 4 n ++ content)))) len
        ≡ done (5, str dangling))
      × (ValueStr.get dangling ≡ fault)
      × (serialize (str dangling) ≡ fault)
malformed_text size n len content some_size size_fits some_text n_fits wrong room =
    let read = wrong_length size n len content some_size size_fits n_fits wrong room in
    let (got, sent) = dangling_text n some_text in (read, got, sent)

-- The check of the size wraps at the top: with a size of 2^32 - 5 or more it lets raw data of that
-- size pass, and the copy reads past a buffer that is shorter.
pub huge_size :
    (size len : ℕ) (content : List ℕ)
    → 2 ^ 32 ≤ size + 5
    → size < u32_mod
    → length content < size
    → 5 ≤ len
    → deserialize (create_value 0) (some (0 ∷ (le_bytes 4 size ++ content))) len ≡ fault
unfolding create_value get_type deserialize_internal ValueUndefined.deserialize_internal
huge_size size len content huge small short long =
    deserialize_metadata (undefined []) size len content small long (omega arith)
    ∙ ground (arith, read_bytes-fault content size short)
