-- ===== src/Value/Value32S.antt =====
-- values/Value32S.cpp and values/Value32S.hpp: a 32-bit signed integer. The object is its field `value`.
use dowow_network.Prelude.{
  ℕ, ◌≡◌, List, ◌++◌, length, ltb, if◌then◌else◌, arith, Outcome, done, ◌>>=◌, ◌^◌,
}
use dowow_network.Prelude.Bytes.{read_le, le_bytes, read_le-le_bytes, length-le_bytes}
use dowow_network.Prelude.Int.{
  ℤ, pos, to_signed, to_unsigned, IsSigned, to_unsigned-lt, to_signed-to_unsigned,
}
use dowow_network.Prelude.Text.{codes, to_string_signed}
use mathlib.Core.Logic.{◌≢◌}
use dowow_network.Prelude.{stuck}
use dowow_network.Prelude.Bytes.{read_le-ne-stuck}

-- The values that the field can hold.
abbrev pub InRange : ℤ → Type 0
InRange value = IsSigned (2 ^ 31) value

-- A new object.
abbrev pub init : ℤ
init = pos 0

-- The bytes used, 0 for a failure, and the object after the call.
unfoldable pub deserialize_internal : ℤ → List ℕ → ℕ → Outcome (ℕ × ℤ)
deserialize_internal value buf len =
    let read = read_le 4 buf >>= λ temp. done (4, to_signed (2 ^ 31) temp) in
    if ltb len 4 then done (0, value) else read

unfoldable pub serialize_internal : ℤ → List ℕ
serialize_internal value = le_bytes 4 (to_unsigned (2 ^ 31) value)

unfoldable pub get_size_internal : ℤ → ℕ
get_size_internal value = 4

unfoldable pub to_string_internal : ℤ → List ℕ
to_string_internal value = codes "int32_t: " ++ to_string_signed value

unfoldable pub set : ℤ → ℤ → ℤ
set this value = value

unfoldable pub get : ℤ → ℤ
get this = this

-- `original` is an object of the same class.
unfoldable pub copy_from : ℤ → ℤ → ℤ
copy_from this original = original

pub length-serialize_internal :
    (value : ℤ) → length (serialize_internal value) ≡ get_size_internal value
unfolding serialize_internal get_size_internal
length-serialize_internal value = length-le_bytes 4 _

-- The bytes of a value in range give it back, into any object and whatever follows them.
pub deserialize_internal-serialize_internal :
    (old value : ℤ) (rest : List ℕ)
    → InRange value
    → deserialize_internal old (serialize_internal value ++ rest) (get_size_internal value)
      ≡ done (get_size_internal value, value)
unfolding deserialize_internal serialize_internal get_size_internal
deserialize_internal-serialize_internal old value rest h =
    rw
      (read_le-le_bytes 4 (to_unsigned (2 ^ 31) value) rest
        (omega (arith, to_unsigned-lt (2 ^ 31) value h)))
      (rw (to_signed-to_unsigned (2 ^ 31) value h))

pub deserialize_internal-ne-stuck :
    (value : ℤ) (buf : List ℕ) (len : ℕ) → deserialize_internal value buf len ≢ stuck
unfolding deserialize_internal
deserialize_internal-ne-stuck value buf len = λ e. ground (arith, read_le-ne-stuck 4 buf)
