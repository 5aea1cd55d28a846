-- ===== src/Value/Wire.antt =====
-- The format of a value on the wire, as ValueType.hpp, Value.hpp and the classes under values/
-- describe it, written without buffers, offsets or wrapping sizes; and the values that have one.
pub mod Serialize
pub mod Steps
pub mod RoundTrip
use dowow_network.Prelude.{
  ℕ, ◌+◌, ◌^◌, ◌*◌, ◌≤◌, ◌<◌, ◌≡◌, refl, List, [], ◌∷◌, ◌++◌, length, arith, length-append,
}
use dowow_network.Prelude.Bytes.{le_bytes, length-le_bytes}
use dowow_network.Prelude.Int.{IsSigned, to_unsigned}
use dowow_network.Value.Data.{
  Value, Values, undefined, v64s, v32s, v16s, v8s, v64u, v32u, v16u, v8u, str, arr, nil, cons,
  get_type,
}
use dowow_network.Value.ValueArr.{count}
use dowow_network.Value.ValueStr.Laws

-- The content of a value, and the elements of an array: each with its type, the length of its
-- content and the content.
unfoldable mutual
  pub body : Value → List ℕ
  body (undefined bs) = bs
  body (v64s z) = le_bytes 8 (to_unsigned (2 ^ 63) z)
  body (v64u n) = le_bytes 8 n
  body (v32s z) = le_bytes 4 (to_unsigned (2 ^ 31) z)
  body (v32u n) = le_bytes 4 n
  body (v16s z) = le_bytes 2 (to_unsigned (2 ^ 15) z)
  body (v16u n) = le_bytes 2 n
  body (v8u n) = n ∷ []
  body (v8s z) = to_unsigned 128 z ∷ []
  body (str s) = le_bytes 4 s.str_length ++ s.str_data
  body (arr vs) = le_bytes 4 (count vs) ++ bodies vs

  pub bodies : Values → List ℕ
  bodies nil = []
  bodies (cons v vs) = (get_type v ∷ (le_bytes 4 (length (body v)) ++ body v)) ++ bodies vs

unfoldable pub encode : Value → List ℕ
unfolding body
encode v = get_type v ∷ (le_bytes 4 (length (body v)) ++ body v)

-- The numbers lie in the ranges of their types, and each text's length is that of its data.
unfoldable mutual
  pub IsValid : Value → Type 0
  IsValid (undefined bs) = Unit
  IsValid (v64s z) = IsSigned (2 ^ 63) z
  IsValid (v64u n) = n < 2 ^ 64
  IsValid (v32s z) = IsSigned (2 ^ 31) z
  IsValid (v32u n) = n < 2 ^ 32
  IsValid (v16s z) = IsSigned (2 ^ 15) z
  IsValid (v16u n) = n < 2 ^ 16
  IsValid (v8u n) = n < 2 ^ 8
  IsValid (v8s z) = IsSigned 128 z
  IsValid (str s) = Laws.IsValid s
  IsValid (arr vs) = AllValid vs

  pub AllValid : Values → Type 0
  AllValid nil = Unit
  AllValid (cons v vs) = IsValid v × AllValid vs

pub encode_front :
    (v : Value) (rest : List ℕ)
    → encode v ++ rest ≡ get_type v ∷ ((le_bytes 4 (length (body v)) ++ body v) ++ rest)
unfolding encode
encode_front v rest = refl

pub length-encode : (v : Value) → length (encode v) ≡ length (body v) + 5
unfolding encode
length-encode v = omega (
  arith,
  length-le_bytes 4 (length (body v)),
  length-append (le_bytes 4 (length (body v))) (body v),
)

pub length-bodies-cons :
    (v : Value) (vs : Values)
    → length (bodies (cons v vs)) ≡ (length (body v) + 5) + length (bodies vs)
unfolding encode bodies
length-bodies-cons v vs = omega (arith, length-append (encode v) (bodies vs), length-encode v)

pub length-body-arr : (vs : Values) → length (body (arr vs)) ≡ 4 + length (bodies vs)
unfolding body
length-body-arr vs =
    omega (arith, length-append (le_bytes 4 (count vs)) (bodies vs), length-le_bytes 4 (count vs))

pub count-le-bodies : (vs : Values) → 5 * count vs ≤ length (bodies vs)
unfolding count bodies
count-le-bodies nil = omega arith
count-le-bodies (cons v vs) = omega (arith, count-le-bodies vs, length-bodies-cons v vs)
