-- ===== src/Value/Wire/Serialize.antt =====
-- Value.cpp and values/: what `Serialize` writes is the format, and `GetSize` is its length.
use dowow_network.Prelude.{
  ℕ, ◌+◌, ◌%◌, ◌<◌, ◌≡◌, refl, sym, ◌∙◌, ◌++◌, length, arith, done, length-append,
}
use dowow_network.Prelude.Bytes.{
  u32_mod, le_bytes, length-le_bytes, read_bytes, fill, read_bytes_self,
}
use dowow_network.Value.Data.{
  Value, Values, undefined, v64s, v32s, v16s, v8s, v64u, v32u, v16u, v8u, str, arr, nil, cons,
  get_type,
}
use dowow_network.Value.ValueUndefined
use dowow_network.Value.ValueStr.Laws
use dowow_network.Value.ValueArr.{count, get_count}
use dowow_network.Value.Value8S
use dowow_network.Value.Value8U
use dowow_network.Value.Value16S
use dowow_network.Value.Value16U
use dowow_network.Value.Value32S
use dowow_network.Value.Value32U
use dowow_network.Value.Value64S
use dowow_network.Value.Value64U
use dowow_network.Value.Codec.{
  get_size_internal, get_size_elements, get_size, with_metadata, serialize_internal,
  serialize_elements, serialize,
}
use dowow_network.Value.Wire.{
  body, bodies, encode, IsValid, AllValid, length-encode, length-body-arr, length-bodies-cons,
  count-le-bodies,
}

mutual
  unfolding get_size_internal body IsValid ValueUndefined.get_size_internal
      Value8S.get_size_internal Value8U.get_size_internal Value16S.get_size_internal
      Value16U.get_size_internal Value32S.get_size_internal Value32U.get_size_internal
      Value64S.get_size_internal Value64U.get_size_internal

  get_size_internal-body :
      (v : Value)
      → IsValid v
      → length (body v) + 5 < u32_mod
      → get_size_internal v ≡ length (body v)
  get_size_internal-body (undefined bs) h fits = refl
  get_size_internal-body (v64s z) h fits = sym (length-le_bytes 8 _)
  get_size_internal-body (v64u n) h fits = sym (length-le_bytes 8 _)
  get_size_internal-body (v32s z) h fits = sym (length-le_bytes 4 _)
  get_size_internal-body (v32u n) h fits = sym (length-le_bytes 4 _)
  get_size_internal-body (v16s z) h fits = sym (length-le_bytes 2 _)
  get_size_internal-body (v16u n) h fits = sym (length-le_bytes 2 _)
  get_size_internal-body (v8u n) h fits = refl
  get_size_internal-body (v8s z) h fits = refl
  get_size_internal-body (str s) h fits = Laws.get_size_internal-IsValid s h
  get_size_internal-body (arr vs) h fits =
      get_size_elements-bodies 4 vs h (omega (arith, length-body-arr vs)) ∙ sym (length-body-arr vs)

  get_size_elements-bodies :
      (sum : ℕ) (vs : Values)
      → AllValid vs
      → sum + length (bodies vs) < u32_mod
      → get_size_elements sum vs ≡ sum + length (bodies vs)
  get_size_elements-bodies sum nil h fits = omega arith
  get_size_elements-bodies sum (cons v vs) h fits =
      let room : length (body v) + 5 + (sum + length (bodies vs)) < u32_mod =
        omega (arith, length-bodies-cons v vs) in
      let size : (sum + (get_size_internal v + 5) % u32_mod) % u32_mod
          ≡ sum + (length (body v) + 5) =
        omega (arith, get_size_internal-body v h.0 (omega arith)) in
      rw size (
        get_size_elements-bodies (sum + (length (body v) + 5)) vs h.1 (omega arith)
        ∙ omega (arith, length-bodies-cons v vs))

-- The size of a sound value is the length of its format, where that is below 2^32.
pub get_size-encode :
    (v : Value) → IsValid v → length (encode v) < u32_mod → get_size v ≡ length (encode v)
unfolding get_size
get_size-encode v h fits =
    omega (arith, length-encode v, get_size_internal-body v h (omega (arith, length-encode v)))

with_metadata-encode :
    (v : Value)
    → length (encode v) < u32_mod
    → with_metadata (get_type v) (length (body v)) (done (body v)) ≡ done (encode v)
unfolding with_metadata fill encode
with_metadata-encode v fits = rw (read_bytes_self (body v)) (
    ground (
      arith,
      length-append (le_bytes 4 (length (body v))) (body v),
      length-le_bytes 4 (length (body v)),
    ))

read-encode :
    (v : Value)
    → IsValid v
    → length (encode v) < u32_mod
    → read_bytes (encode v) (get_size v) ≡ done (encode v)
read-encode v h fits = rw (get_size-encode v h fits) (read_bytes_self (encode v))

-- One element of an array, as `SerializeInternal` copies it.
serialize_elements-cons :
    (v : Value) (vs : Values)
    → IsValid v
    → length (encode v) < u32_mod
    → serialize_internal v ≡ done (body v)
    → serialize_elements vs ≡ done (bodies vs)
    → serialize_elements (cons v vs) ≡ done (encode v ++ bodies vs)
unfolding serialize_internal
serialize_elements-cons v vs h fits content more =
    let size : get_size_internal v ≡ length (body v) =
      get_size_internal-body v h (omega (arith, length-encode v)) in
    rw (content, size, with_metadata-encode v fits, read-encode v h fits, more) refl

serialize_arr :
    (vs : Values)
    → AllValid vs
    → length (bodies vs) + 9 < u32_mod
    → serialize_elements vs ≡ done (bodies vs)
    → serialize_internal (arr vs) ≡ done (le_bytes 4 (count vs) ++ bodies vs)
unfolding serialize_internal get_count fill
serialize_arr vs h fits elements =
    let size : get_size_elements 4 vs ≡ 4 + length (bodies vs) =
      get_size_elements-bodies 4 vs h (omega arith) in
    let amount : count vs % u32_mod ≡ count vs = omega (arith, count-le-bodies vs) in
    rw (elements, size, amount)
      (ground
        (arith, length-append (le_bytes 4 (count vs)) (bodies vs), length-le_bytes 4 (count vs)))

mutual
  unfolding encode serialize_internal body IsValid ValueUndefined.serialize_internal
      Value8S.serialize_internal Value8U.serialize_internal Value16S.serialize_internal
      Value16U.serialize_internal Value32S.serialize_internal Value32U.serialize_internal
      Value64S.serialize_internal Value64U.serialize_internal

  serialize_internal-body :
      (v : Value) → IsValid v → length (body v) + 5 < u32_mod → serialize_internal v ≡ done (body v)
  serialize_internal-body (undefined bs) h fits = refl
  serialize_internal-body (v64s z) h fits = refl
  serialize_internal-body (v64u n) h fits = refl
  serialize_internal-body (v32s z) h fits = refl
  serialize_internal-body (v32u n) h fits = refl
  serialize_internal-body (v16s z) h fits = refl
  serialize_internal-body (v16u n) h fits = refl
  serialize_internal-body (v8u n) h fits = refl
  serialize_internal-body (v8s z) h fits = refl
  serialize_internal-body (str s) h fits = Laws.serialize_internal-IsValid s h
  serialize_internal-body (arr vs) h fits =
      serialize_arr vs h (omega (arith, length-body-arr vs))
        (serialize_elements-bodies vs h (omega (arith, length-body-arr vs)))

  serialize_elements-bodies :
      (vs : Values)
      → AllValid vs
      → length (bodies vs) < u32_mod
      → serialize_elements vs ≡ done (bodies vs)
  serialize_elements-bodies nil h fits = refl
  serialize_elements-bodies (cons v vs) h fits =
      serialize_elements-cons v vs h.0 (omega (arith, length-bodies-cons v vs, length-encode v))
        (serialize_internal-body v h.0 (omega (arith, length-bodies-cons v vs)))
        (serialize_elements-bodies vs h.1 (omega (arith, length-bodies-cons v vs)))

-- A sound value of less than 4 GiB is written in the format.
pub serialize-encode :
    (v : Value) → IsValid v → length (encode v) < u32_mod → serialize v ≡ done (encode v)
unfolding serialize
serialize-encode v h fits =
    let room : length (body v) + 5 < u32_mod = omega (arith, length-encode v) in
    rw (serialize_internal-body v h room, get_size_internal-body v h room)
      (with_metadata-encode v fits)
