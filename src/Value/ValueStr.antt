-- ===== src/Value/ValueStr.antt =====
-- values/ValueStr.cpp and values/ValueStr.hpp: a text of known length.
pub mod Laws
pub mod Newlines
use dowow_network.Prelude.{
  ℕ, zero, suc, ◌+◌, ◌%◌, ◌<◌, ◌≤◌, ◌≡◌, ◌≢◌, refl, Option, none, some, List, [], ◌∷◌, ◌++◌, length,
  take, drop, replicate, ltb, ◌==◌, if◌then◌else◌, not, arith, Outcome, done, fault, stuck, ◌>>=◌,
  ◌>>◌, length-append,
}
use dowow_network.Prelude.Bytes.{
  u16_mod, u32_mod, read_bytes, read_le, le_bytes, fill, read_bytes-append, read_le-le_bytes,
  length-le_bytes, read_bytes-ne-stuck, read_le-ne-stuck,
}
use dowow_network.Prelude.Text.{codes, to_string}

-- `str_data` is the list of the bytes it points to, empty for the null pointer.
pub record ValueStr : Type 0 where
  pub str_data : List ℕ
  pub str_length : ℕ

unfoldable pub delete_buffer : ValueStr → ValueStr
delete_buffer this = elim this.str_data [
  | [] ↦ this
  | b ∷ bs ↦ record { str_data = []; str_length = 0 }
]

-- Both setters; `str_length` is 32 bits wide.
unfoldable pub set : ValueStr → List ℕ → ValueStr
set this val = record {
  str_data = take (length val % u32_mod) val;
  str_length = length val % u32_mod;
}

unfoldable pub set_buffer : ValueStr → List ℕ → ℕ → Outcome ValueStr
set_buffer this val len =
    read_bytes val len >>= λ bs. done (record { str_data = bs; str_length = len })

-- A new object holds the text that it is given; by default the empty one.
abbrev pub empty : ValueStr
empty = record { str_data = []; str_length = 0 }

unfoldable pub init : List ℕ → ValueStr
unfolding set
init str = set empty str

unfoldable pub get : ValueStr → Outcome (List ℕ)
get this = if this.str_length == 0 then done [] else read_bytes this.str_data this.str_length

-- The part of `deserialize_internal` that follows the check of the length: the buffer is deleted
-- already, so that after a wrong length the length that was read stays.
unfoldable pub deserialize_text : ValueStr → List ℕ → ℕ → Outcome (ℕ × ValueStr)
unfolding delete_buffer
deserialize_text this buf len = do
  n ← read_le 4 buf
  let sized : ValueStr = record this { str_length = n }
  let copied = read_bytes (drop 4 buf) n >>= λ bs. done (len, record sized { str_data = bs })
  if len == (n + 4) % u32_mod
      then (if n == 0 then done (len, sized) else copied)
      else done (0, delete_buffer sized)

-- The bytes used, 0 for a failure, and the object after the call.
unfoldable pub deserialize_internal : ValueStr → List ℕ → ℕ → Outcome (ℕ × ValueStr)
unfolding deserialize_text
deserialize_internal this buf len =
    if ltb len 4
    then done (0, delete_buffer this)
    else deserialize_text (delete_buffer this) buf len

unfoldable pub get_size_internal : ValueStr → ℕ
get_size_internal this = (this.str_length + 4) % u32_mod

unfoldable pub serialize_internal : ValueStr → Outcome (List ℕ)
serialize_internal this = do
  bs ← if this.str_length == 0 then done [] else read_bytes this.str_data this.str_length
  fill (get_size_internal this) (le_bytes 4 this.str_length ++ bs)

-- `std::string::find` of a line feed, in a text whose first byte has the index.
unfoldable pub find_newline : List ℕ → ℕ → Option ℕ
find_newline [] index = none
find_newline (b ∷ bs) index =
    let later = find_newline bs (suc index) in if b == 10 then some index else later

-- The loop of `ToStringInternal`: each line feed from the index on is replaced. Every pass is one step
-- of the fuel.
unfoldable pub replace_loop : ℕ → List ℕ → List ℕ → ℕ → Outcome (List ℕ)
unfolding find_newline
replace_loop zero indent_str return_str replace_index = stuck
replace_loop (suc fuel) indent_str return_str replace_index =
    elim (find_newline (drop replace_index return_str) replace_index) [
      | none ↦ done return_str
      | some found ↦
          replace_loop fuel indent_str
            (take found return_str ++ (indent_str ++ drop (suc found) return_str))
            (found + length indent_str)
    ]

-- A text has at most as many line feeds as bytes.
unfoldable pub to_string_internal : ValueStr → ℕ → Outcome (List ℕ)
unfolding replace_loop
to_string_internal this indent =
    let indent_str = 10 ∷ replicate ((indent + 4) % u16_mod) b' ' in
    let shown = read_bytes this.str_data this.str_length >>= λ text.
    replace_loop (suc (length text)) indent_str text 0 >>= λ return_str. done (
      codes "string["
      ++ (to_string this.str_length
          ++ (codes "]: \"" ++ (indent_str ++ (return_str ++ codes "\""))))) in
    if this.str_length == 0 then done (codes "string[0]: <empty>") else shown

unfoldable pub copy_from : ValueStr → ValueStr → Outcome ValueStr
copy_from this original = get original >>= λ val. done (set this val)
