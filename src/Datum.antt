-- ===== src/Datum.antt =====
-- Datum.cpp and Datum.hpp: a value with a name.
pub mod Wire
pub mod Total
use dowow_network.Prelude.{
  ℕ, ◌+◌, ◌-◌, ◌%◌, Bool, true, false, not, Option, none, some, List, [], ◌∷◌, ◌++◌, length, drop,
  ltb, ◌==◌, if◌then◌else◌, Outcome, done, ◌>>=◌,
}
use dowow_network.Prelude.Bytes.{u16_mod, u32_mod, read_bytes, read_byte, read_le, le_bytes, fill}
use dowow_network.Value.Data.{Value, undefined, create_value}
use dowow_network.Value.Data
use dowow_network.Value.Codec

-- The value's pointer is never null: the constructor and `SetValue` put an undefined value there.
pub record Datum : Type 0 where
  pub name : List ℕ
  pub value : Value

abbrev pub init : Datum
init = record { name = []; value = undefined [] }

unfoldable pub get_valid : Datum → Bool
get_valid this = elim this.name [ [] ↦ false | b ∷ bs ↦ true ]

unfoldable pub get_type : Datum → ℕ
get_type this = Data.get_type this.value

unfoldable pub get_name : Datum → List ℕ
get_name this = this.name

unfoldable pub get_value : Datum → Value
get_value this = this.value

unfoldable pub set_name : Datum → List ℕ → Datum
set_name this name = record this { name = name }

-- The null pointer stands for an undefined value; another value is copied or taken over.
unfoldable pub set_value : Datum → Option Value → Bool → Outcome Datum
set_value this none to_copy = done (record this { value = undefined [] })
set_value this (some value) to_copy =
    let copied = Codec.copy value >>= λ v. done (record this { value = v }) in
    if to_copy then copied else done (record this { value = value })

unfoldable pub get_size : Datum → ℕ
get_size this = (6 + length this.name + Codec.get_size this.value) % u32_mod

-- The name's length is written with 16 bits.
unfoldable pub serialize : Datum → Outcome (List ℕ)
serialize this = do
  value ← Codec.serialize this.value
  bs ← read_bytes value (Codec.get_size this.value)
  fill (get_size this)
      (le_bytes 4 (get_size this) ++ (le_bytes 2 (length this.name % u16_mod) ++ (this.name ++ bs)))

-- The value's part of `Deserialize`. The length that is left for the value is 32 bits wide, and
-- wraps where the total length is too small for the name.
unfoldable pub deserialize_value : Datum → List ℕ → ℕ → ℕ → Outcome (ℕ × Datum)
deserialize_value this buf total_length name_length = do
  type ← read_byte buf (6 + name_length)
  r ←
      Codec.deserialize (create_value type) (some (drop (6 + name_length) buf))
        ((total_length + u32_mod - (6 + name_length)) % u32_mod)
  if r.0 == 0
      then done (0, this)
      else (read_bytes (drop 6 buf) name_length >>= λ name.
          done (total_length, record { name = name; value = r.1 }))

unfoldable pub deserialize_header : Datum → List ℕ → ℕ → Outcome (ℕ × Datum)
unfolding deserialize_value
deserialize_header this buf len = read_le 4 buf >>= λ total_length.
    if ltb len total_length
    then done (0, this)
    else (read_le 2 (drop 4 buf) >>= λ name_length.
        if ltb total_length name_length
        then done (0, this)
        else deserialize_value this buf total_length name_length)

-- The bytes used, 0 for a failure, and the datum after the call; `none` is the null pointer.
unfoldable pub deserialize : Datum → Option (List ℕ) → ℕ → Outcome (ℕ × Datum)
unfolding deserialize_header
deserialize this none len = done (0, this)
deserialize this (some buf) len =
    if ltb len 6 then done (0, this) else deserialize_header this buf len
