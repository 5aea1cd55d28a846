-- ===== src/Datum/Wire.antt =====
-- Datum.cpp: the format of a datum, what `Serialize` writes and what `Deserialize` reads back.
use dowow_network.Prelude.{
  ℕ, ◌+◌, ◌-◌, ◌%◌, ◌<◌, ◌≤◌, ◌≡◌, refl, sym, ap, ◌∙◌, List, ◌++◌, some, length, drop, arith, done,
  length-append, append_assoc, drop-append_of_length, drop-append, drop-add, le→ltb, ltb, ◌==◌,
  false,
}
use dowow_network.Prelude.Bytes.{
  u16_mod, u32_mod, le_bytes, length-le_bytes, read_byte, read_le, read_le-le_bytes,
  read_bytes-append, read_bytes_self, read_byte-drop, fill,
}
use dowow_network.Value.Data
use dowow_network.Value.Codec
use dowow_network.Value.Wire
use dowow_network.Value.Wire.{length-encode, encode_front}
use dowow_network.Value.Wire.Serialize.{serialize-encode, get_size-encode}
use dowow_network.Value.Wire.RoundTrip.{deserialize-encode}
use dowow_network.Datum.{
  Datum, get_size, serialize, deserialize_value, deserialize_header, deserialize,
}

-- The total length, the name with its length, and the value.
unfoldable pub encode : Datum → List ℕ
encode d =
    le_bytes 4 (6 + length d.name + length (Wire.encode d.value))
    ++ (le_bytes 2 (length d.name) ++ (d.name ++ Wire.encode d.value))

-- The name's length has 16 bits, and the total length 32; the name is any bytes.
pub record IsValid (d : Datum) : Type 0 where
  pub named : length d.name < u16_mod
  pub fits : 6 + length d.name + length (Wire.encode d.value) < u32_mod
  pub sound : Wire.IsValid d.value

pub length-datum :
    (d : Datum) → length (encode d) ≡ 6 + length d.name + length (Wire.encode d.value)
unfolding encode
length-datum d =
    let total = 6 + length d.name + length (Wire.encode d.value) in
    omega (
      arith,
      length-append (le_bytes 4 total)
          (le_bytes 2 (length d.name) ++ (d.name ++ Wire.encode d.value)),
      length-append (le_bytes 2 (length d.name)) (d.name ++ Wire.encode d.value),
      length-append d.name (Wire.encode d.value),
      length-le_bytes 4 total,
      length-le_bytes 2 (length d.name),
    )

-- The format begins with its own length.
encode_total :
    (d : Datum)
    → le_bytes 4 (length (encode d))
        ++ (le_bytes 2 (length d.name) ++ (d.name ++ Wire.encode d.value))
      ≡ encode d
encode_total d = rw (length-datum d) (unfold encode in refl)

pub get_size-datum : (d : Datum) → IsValid d → get_size d ≡ length (encode d)
unfolding get_size
get_size-datum d h = omega (arith, length-datum d, get_size-encode d.value h.sound (omega arith))

-- A sound datum, its name of less than 2^16 bytes and its format of less than 2^32, is written in
-- the format.
pub serialize-datum : (d : Datum) → IsValid d → serialize d ≡ done (encode d)
unfolding serialize
serialize-datum d h =
    rw
      (
        serialize-encode d.value h.sound (omega arith),
        value_size,
        read_bytes_self (Wire.encode d.value),
        get_size-datum d h,
        name_size,
      )
      filled
  where
    value_size : Codec.get_size d.value ≡ length (Wire.encode d.value)
    value_size = get_size-encode d.value h.sound (omega arith)

    name_size : length d.name % u16_mod ≡ length d.name
    name_size = omega arith

    filled :
        fill (length (encode d)) (
          le_bytes 4 (length (encode d))
          ++ (le_bytes 2 (length d.name) ++ (d.name ++ Wire.encode d.value)))
        ≡ done (encode d)
    filled =
        unfold fill in
        rw (encode_total d) (rw (le→ltb (length (encode d)) (length (encode d)) (omega arith)) refl)

-- The fields of the header, and where the parts stand.
module _ (d : Datum) (rest : List ℕ) (h : IsValid d) where
  shape :
      encode d ++ rest
      ≡ le_bytes 4 (length (encode d))
        ++ (le_bytes 2 (length d.name) ++ (d.name ++ (Wire.encode d.value ++ rest)))
  shape = let whole = sym (encode_total d) in ap (λ bs. bs ++ rest) whole ∙ simp append_assoc

  drop_total :
      drop 4 (encode d ++ rest)
      ≡ le_bytes 2 (length d.name) ++ (d.name ++ (Wire.encode d.value ++ rest))
  drop_total = rw shape (drop-append_of_length 4 (le_bytes 4 _) _ (length-le_bytes 4 _))

  read_total : read_le 4 (encode d ++ rest) ≡ done (length (encode d))
  read_total = rw shape (read_le-le_bytes 4 (length (encode d)) _ (omega (arith, length-datum d)))

  read_name_length : read_le 2 (drop 4 (encode d ++ rest)) ≡ done (length d.name)
  read_name_length = rw drop_total (read_le-le_bytes 2 (length d.name) _ (omega arith))

  drop_header : drop 6 (encode d ++ rest) ≡ d.name ++ (Wire.encode d.value ++ rest)
  drop_header =
      drop-add 4 2 (encode d ++ rest)
      ∙ rw drop_total (drop-append_of_length 2 (le_bytes 2 _) _ (length-le_bytes 2 _))

  drop_value : drop (6 + length d.name) (encode d ++ rest) ≡ Wire.encode d.value ++ rest
  drop_value = drop-add 6 (length d.name) (encode d ++ rest) ∙ rw drop_header (drop-append d.name _)

  read_type : read_byte (encode d ++ rest) (6 + length d.name) ≡ done (Data.get_type d.value)
  read_type = read_byte-drop _ _ _ _ (drop_value ∙ encode_front d.value rest)

  -- The bytes of a sound datum, its name of less than 2^16 bytes and its format of less than 2^32,
  -- followed by any others, are read back into any datum, for every length given that is not below
  -- theirs.
  pub deserialize-datum :
      (old : Datum) (len : ℕ)
      → length (encode d) ≤ len
      → deserialize old (some (encode d ++ rest)) len ≡ done (length (encode d), d)
  unfolding deserialize deserialize_header deserialize_value
  deserialize-datum old len room =
      let long : ltb len 6 ≡ false = le→ltb len 6 (omega (arith, length-datum d)) in
      let total_fits : ltb len (length (encode d)) ≡ false = le→ltb len _ room in
      let name_fits : ltb (length (encode d)) (length d.name) ≡ false =
        le→ltb _ _ (omega (arith, length-datum d)) in
      let left : (length (encode d) + u32_mod - (6 + length d.name)) % u32_mod
          ≡ length (Wire.encode d.value) =
        omega (arith, length-datum d) in
      let value =
        deserialize-encode d.value rest (length (Wire.encode d.value)) h.sound (omega arith)
          (omega arith) in
      let used : (length (Wire.encode d.value) == 0) ≡ false =
        ground (arith, length-encode d.value) in
      rw
        (
          long,
          read_total,
          total_fits,
          read_name_length,
          name_fits,
          read_type,
          left,
          drop_value,
          value,
          used,
          drop_header,
          read_bytes-append d.name (Wire.encode d.value ++ rest),
        )
        refl
