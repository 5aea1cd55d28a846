-- ===== src/Value/Value8U.antt =====
-- values/Value8U.cpp and values/Value8U.hpp: a 8-bit unsigned integer. The object is its field `value`.
use dowow_network.Prelude.{
  ℕ, ◌<◌, ◌≡◌, refl, List, [], ◌∷◌, ◌++◌, length, ltb, if◌then◌else◌, arith, Outcome, done, ◌>>=◌,
  ◌^◌,
}
use dowow_network.Prelude.Bytes.{read_byte}
use dowow_network.Prelude.Text.{codes, to_string}
use mathlib.Core.Logic.{◌≢◌}
use dowow_network.Prelude.{stuck}
use dowow_network.Prelude.Bytes.{read_byte-ne-stuck}

-- The values that the field can hold.
abbrev pub InRange : ℕ → Type 0
InRange value = value < 2 ^ 8

-- A new object.
abbrev pub init : ℕ
init = 0

-- The bytes used, 0 for a failure, and the object after the call.
unfoldable pub deserialize_internal : ℕ → List ℕ → ℕ → Outcome (ℕ × ℕ)
deserialize_internal value buf len =
    let read = read_byte buf 0 >>= λ temp. done (1, temp) in
    if ltb len 1 then done (0, value) else read

unfoldable pub serialize_internal : ℕ → List ℕ
serialize_internal value = value ∷ []

unfoldable pub get_size_internal : ℕ → ℕ
get_size_internal value = 1

unfoldable pub to_string_internal : ℕ → List ℕ
to_string_internal value = codes "uint8_t: " ++ to_string value

unfoldable pub set : ℕ → ℕ → ℕ
set this value = value

unfoldable pub get : ℕ → ℕ
get this = this

-- `original` is an object of the same class.
unfoldable pub copy_from : ℕ → ℕ → ℕ
copy_from this original = original

pub length-serialize_internal :
    (value : ℕ) → length (serialize_internal value) ≡ get_size_internal value
unfolding serialize_internal get_size_internal
length-serialize_internal value = refl

-- The bytes of a value in range give it back, into any object and whatever follows them.
pub deserialize_internal-serialize_internal :
    (old value : ℕ) (rest : List ℕ)
    → InRange value
    → deserialize_internal old (serialize_internal value ++ rest) (get_size_internal value)
      ≡ done (get_size_internal value, value)
unfolding deserialize_internal serialize_internal get_size_internal read_byte
deserialize_internal-serialize_internal old value rest h = refl

pub deserialize_internal-ne-stuck :
    (value : ℕ) (buf : List ℕ) (len : ℕ) → deserialize_internal value buf len ≢ stuck
unfolding deserialize_internal
deserialize_internal-ne-stuck value buf len = λ e. ground (arith, read_byte-ne-stuck buf 0)
