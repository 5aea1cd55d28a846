-- ===== src/Value/Wire/RoundTrip.antt =====
-- Value.cpp and values/: `Deserialize` reads back what `Serialize` wrote.
use dowow_network.Prelude.{
  ℕ, zero, suc, ◌+◌, ◌<◌, ◌≤◌, ◌≡◌, refl, ap, ◌∙◌, List, ◌++◌, length, drop, arith, Outcome, done,
  some, length-append, append_assoc, drop-append, drop-add,
}
use dowow_network.Prelude.Int.{pos}
use native.Mathlib.Nat.{add-zero}
use dowow_network.Prelude.Bytes.{u32_mod, le_bytes, length-le_bytes, read_le, read_le-le_bytes}
use dowow_network.Value.Data.{
  Value, Values, undefined, v64s, v32s, v16s, v8s, v64u, v32u, v16u, v8u, str, arr, nil, cons,
  get_type, create_value,
}
use dowow_network.Value.ValueUndefined
use dowow_network.Value.ValueStr
use dowow_network.Value.ValueStr.Laws
use dowow_network.Value.ValueArr.{count, append, push_back, deserialize_loop}
use dowow_network.Value.ValueArr
use dowow_network.Value.Value8S
use dowow_network.Value.Value8U
use dowow_network.Value.Value16S
use dowow_network.Value.Value16U
use dowow_network.Value.Value32S
use dowow_network.Value.Value32U
use dowow_network.Value.Value64S
use dowow_network.Value.Value64U
use dowow_network.Value.Integers.{
  v64s-IsInteger, v64u-IsInteger, v32s-IsInteger, v32u-IsInteger, v16s-IsInteger, v16u-IsInteger,
  v8u-IsInteger, v8s-IsInteger,
}
use dowow_network.Value.Codec.{as_value, deserialize_internal, deserialize_at, deserialize}
use dowow_network.Value.Wire.{
  body, bodies, encode, IsValid, AllValid, length-encode, length-body-arr, length-bodies-cons,
  count-le-bodies,
}
use dowow_network.Value.Wire.Steps.{
  append-nil_right, append-push_back, deserialize_at_step, loop-cons,
}

bodies-cons :
    (v : Value) (vs : Values) (rest : List ℕ)
    → bodies (cons v vs) ++ rest ≡ encode v ++ (bodies vs ++ rest)
unfolding encode bodies
bodies-cons v vs rest = append_assoc (encode v) (bodies vs) rest

-- Behind an element that was read stand the others.
drop_element :
    (v : Value) (off : ℕ) (buf more : List ℕ)
    → drop off buf ≡ encode v ++ more
    → drop (off + length (encode v)) buf ≡ more
drop_element v off buf more e =
    rw (drop-add off (length (encode v)) buf, e) (drop-append (encode v) more)

arr_content :
    (fuel : ℕ) (vs : Values) (rest : List ℕ)
    → length (bodies vs) + 9 < u32_mod
    → deserialize_loop
        (deserialize_at fuel)
        (count vs)
        (body (arr vs) ++ rest)
        (length (body (arr vs)))
        4
        nil
      ≡ done (4 + length (bodies vs), append nil vs)
    → deserialize_internal
        (deserialize_at fuel)
        (arr nil)
        (body (arr vs) ++ rest)
        (length (body (arr vs)))
      ≡ done (length (body (arr vs)), arr vs)
unfolding deserialize_internal ValueArr.deserialize_internal append
arr_content fuel vs rest fits loop =
    let amount : read_le 4 (body (arr vs) ++ rest) ≡ done (count vs) =
      unfold body in
      rw append_assoc
        (read_le-le_bytes 4 (count vs) (bodies vs ++ rest) (omega (arith, count-le-bodies vs))) in
    rw (amount, loop, length-body-arr vs) refl

str_content :
    (s : ValueStr.ValueStr) (rest : List ℕ)
    → Laws.IsValid s
    → ValueStr.deserialize_internal ValueStr.empty (body (str s) ++ rest) (length (body (str s)))
      ≡ done (length (body (str s)), s)
unfolding body
str_content s rest v =
    let size : length (le_bytes 4 s.str_length ++ s.str_data) ≡ 4 + s.str_length =
      omega (
        arith,
        length-append (le_bytes 4 s.str_length) s.str_data,
        length-le_bytes 4 s.str_length,
      ) in
    rw size (Laws.deserialize_internal-serialize_internal s rest v)

arr_front : (vs : Values) (rest : List ℕ) → drop 4 (body (arr vs) ++ rest) ≡ bodies vs ++ rest
unfolding body le_bytes
arr_front vs rest = refl

loop-nil :
    (rec : Value → List ℕ → ℕ → Outcome (ℕ × Value)) (buf : List ℕ) (len off : ℕ) (acc : Values)
    → deserialize_loop rec (count nil) buf len off acc
      ≡ done (off + length (bodies nil), append acc nil)
unfolding deserialize_loop count body
loop-nil rec buf len off acc = rw (append-nil_right acc, add-zero) refl

loop-cons_done :
    (fuel : ℕ) (v : Value) (vs : Values) (rest buf : List ℕ) (len off : ℕ) (acc : Values)
    → drop off buf ≡ bodies (cons v vs) ++ rest
    → off + length (bodies (cons v vs)) ≤ len
    → len < u32_mod
    → deserialize_internal
        (deserialize_at fuel)
        (create_value (get_type v))
        (body v ++ (bodies vs ++ rest))
        (length (body v))
      ≡ done (length (body v), v)
    → deserialize_loop
        (deserialize_at (suc fuel))
        (count vs)
        buf
        len
        (off + length (encode v))
        (push_back acc v)
      ≡ done (off + length (encode v) + length (bodies vs), append (push_back acc v) vs)
    → deserialize_loop (deserialize_at (suc fuel)) (count (cons v vs)) buf len off acc
      ≡ done (off + length (bodies (cons v vs)), append acc (cons v vs))
unfolding count
loop-cons_done fuel v vs rest buf len off acc at_v fits wide content more =
    let total : off + length (encode v) + length (bodies vs) ≡ off + length (bodies (cons v vs)) =
      omega (arith, length-bodies-cons v vs, length-encode v) in
    loop-cons fuel v vs rest buf len off acc (at_v ∙ bodies-cons v vs rest) fits wide content
    ∙ more
    ∙ rw (total, append-push_back acc v vs) refl

mutual
  unfolding deserialize_internal create_value get_type body IsValid le_bytes
      Value8S.get_size_internal Value8U.get_size_internal Value16S.get_size_internal
      Value16U.get_size_internal Value32S.get_size_internal Value32U.get_size_internal
      Value64S.get_size_internal Value64U.get_size_internal Value8S.serialize_internal
      Value8U.serialize_internal Value16S.serialize_internal Value16U.serialize_internal
      Value32S.serialize_internal Value32U.serialize_internal Value64S.serialize_internal
      Value64U.serialize_internal ValueUndefined.serialize_internal

  content-body :
      (fuel : ℕ) (v : Value) (rest : List ℕ)
      → IsValid v
      → length (body v) + 5 < u32_mod
      → length (body v) ≤ fuel
      → deserialize_internal
          (deserialize_at fuel)
          (create_value (get_type v))
          (body v ++ rest)
          (length (body v))
        ≡ done (length (body v), v)
  content-body fuel (undefined bs) rest h fits deep =
      ap (as_value undefined) (ValueUndefined.deserialize_internal-serialize_internal bs rest)
  content-body fuel (v64s z) rest h fits deep =
      ap (as_value v64s) (v64s-IsInteger.back (pos 0) z rest h)
  content-body fuel (v64u n) rest h fits deep = ap (as_value v64u) (v64u-IsInteger.back 0 n rest h)
  content-body fuel (v32s z) rest h fits deep =
      ap (as_value v32s) (v32s-IsInteger.back (pos 0) z rest h)
  content-body fuel (v32u n) rest h fits deep = ap (as_value v32u) (v32u-IsInteger.back 0 n rest h)
  content-body fuel (v16s z) rest h fits deep =
      ap (as_value v16s) (v16s-IsInteger.back (pos 0) z rest h)
  content-body fuel (v16u n) rest h fits deep = ap (as_value v16u) (v16u-IsInteger.back 0 n rest h)
  content-body fuel (v8u n) rest h fits deep = ap (as_value v8u) (v8u-IsInteger.back 0 n rest h)
  content-body fuel (v8s z) rest h fits deep =
      ap (as_value v8s) (v8s-IsInteger.back (pos 0) z rest h)
  content-body fuel (str s) rest h fits deep = ap (as_value str) (str_content s rest h)
  content-body fuel (arr vs) rest h fits deep =
      arr_content fuel vs rest (omega (arith, length-body-arr vs)) (
        loop-bodies fuel vs rest _ _ 4 nil h (arr_front vs rest) (omega (arith, length-body-arr vs))
          (omega arith) (omega (arith, length-body-arr vs)))

  loop-bodies :
      (fuel : ℕ) (vs : Values) (rest buf : List ℕ) (len off : ℕ) (acc : Values)
      → AllValid vs
      → drop off buf ≡ bodies vs ++ rest
      → off + length (bodies vs) ≤ len
      → len < u32_mod
      → length (bodies vs) ≤ fuel
      → deserialize_loop (deserialize_at fuel) (count vs) buf len off acc
        ≡ done (off + length (bodies vs), append acc vs)
  loop-bodies fuel nil rest buf len off acc h at fits wide deep =
      loop-nil (deserialize_at fuel) buf len off acc
  loop-bodies zero (cons v vs) rest buf len off acc h at fits wide deep =
      absurd (omega (arith, length-bodies-cons v vs))
  loop-bodies (suc fuel) (cons v vs) rest buf len off acc h at fits wide deep =
      loop-cons_done fuel v vs rest buf len off acc at fits wide
        (content-body fuel v (bodies vs ++ rest) h.0 (omega (arith, length-bodies-cons v vs))
          (omega (arith, length-bodies-cons v vs)))
        (loop-bodies (suc fuel) vs rest buf len (off + length (encode v)) (push_back acc v) h.1
          (drop_element v off buf (bodies vs ++ rest) (at ∙ bodies-cons v vs rest))
          (omega (arith, length-bodies-cons v vs, length-encode v)) wide
          (omega (arith, length-bodies-cons v vs)))

-- The bytes of a sound value, followed by any others, are read back into a new object of its
-- class, for every length given that is below 2^32 and not below theirs: the bytes used are the
-- value's and the object becomes the value.
pub deserialize-encode :
    (v : Value) (rest : List ℕ) (len : ℕ)
    → IsValid v
    → length (encode v) ≤ len
    → len < u32_mod
    → deserialize (create_value (get_type v)) (some (encode v ++ rest)) len
      ≡ done (length (encode v), v)
unfolding deserialize
deserialize-encode v rest len h fits wide =
    deserialize_at_step (length (encode v ++ rest)) v rest len
      (content-body (length (encode v ++ rest)) v rest h (omega (arith, length-encode v))
        (omega (arith, length-encode v, length-append (encode v) rest)))
      fits wide
